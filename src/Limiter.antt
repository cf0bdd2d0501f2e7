-- ===== src/Limiter.antt =====
-- web/security/controls.py: the sliding-window limiter of write requests. Times are ticks of the
-- monotonic clock, `ticks` of them in a second; the lock makes each call one step.
pub mod Samples
pub mod Capacity
pub mod History
pub mod Tests
use Prim.Native.String.{count}
use Prim.Native.String
use Prim.Native.Char.{Char, code}
use vendor_cat.Base.{
  ℕ, zero, suc, ◌+◌, ◌-◌, ◌*◌, ◌/◌, String, Bool, true, false, not, ◌||◌, Option, none, some, List,
  [], ◌∷◌, ◌++◌, map, keep, length, leb, ltb, max, nat_beq, string_eq, if◌then◌else◌,
}
use vendor_cat.Base.Text.{strip, is_empty, or_text}
use vendor_cat.Base.Dict.{Dict, keys, lookup, insert, remove}

-- any(ch in text for ch in ("\r", "\n", "\t", "\x00"))
has_control : String → Bool
has_control String.[] = false
has_control (String.◌∷◌ c s) =
    let n = code c in nat_beq n 13 || nat_beq n 10 || nat_beq n 9 || nat_beq n 0 || has_control s

unfoldable pub sanitize_identity_value : ℕ → String → String
unfolding strip is_empty has_control
sanitize_identity_value max_len value =
    let text = strip value in
    if is_empty text
    then ""
    else if has_control text
    then ""
    else if ltb max_len (count text)
    then ""
    else text

pub record Limiter : Type 0 where
  pub enabled : Bool
  pub max_requests : ℕ
  pub window_seconds : ℕ
  pub max_keys : ℕ
  pub ticks : ℕ
  pub events : Dict String (List ℕ)
  pub last_seen : Dict String ℕ

-- `__init__`
unfoldable pub new : Bool → ℕ → ℕ → ℕ → ℕ → Limiter
new enabled max_requests window_seconds max_keys ticks = record {
  enabled = enabled;
  max_requests = max 1 max_requests;
  window_seconds = max 1 window_seconds;
  max_keys = max 128 max_keys;
  ticks = ticks;
  events = [];
  last_seen = [];
}

abbrev pub window : Limiter → ℕ
window l = l.window_seconds * l.ticks

-- A sample is old when it is at most the cutoff `now - window`.
abbrev pub is_fresh : ℕ → ℕ → ℕ → Bool
is_fresh width now sample = ltb now (sample + width)

-- while samples and samples[0] <= cutoff: samples.popleft()
unfoldable pub drop_old : ℕ → ℕ → List ℕ → List ℕ
drop_old width now [] = []
drop_old width now (s ∷ samples) =
    let rest = drop_old width now samples in if is_fresh width now s then s ∷ samples else rest

-- The key with the smallest time, the first of these: min(last_seen, key=last_seen.get).
unfoldable pub oldest : String → ℕ → Dict String ℕ → String
oldest key seen [] = key
oldest key seen ((k, t) ∷ rest) =
    oldest (if ltb t seen then k else key) (if ltb t seen then t else seen) rest

-- The second loop of `_trim_locked`. Each round takes a key out of `last_seen`, whose length is the
-- fuel; with none left the loop breaks.
unfoldable pub evict :
    ℕ → ℕ → Dict String (List ℕ) → Dict String ℕ → Dict String (List ℕ) × Dict String ℕ
unfolding oldest remove
evict zero max_keys events seen = (events, seen)
evict (suc fuel) max_keys events [] = (events, [])
evict (suc fuel) max_keys events ((k, t) ∷ seen) =
    let key = oldest k t seen in
    let rest = evict fuel max_keys (remove key events) (remove key ((k, t) ∷ seen)) in
    if leb (length events) max_keys then (events, (k, t) ∷ seen) else rest

pub is_nonempty : List ℕ → Bool
is_nonempty [] = false
is_nonempty (s ∷ samples) = true

-- The first loop prunes every deque in place; the keys left with none are popped from both dicts.
unfoldable pub prune_all : ℕ → ℕ → Dict String (List ℕ) → Dict String (List ℕ)
unfolding drop_old
prune_all width now events = map (λ e. (e.0, drop_old width now e.1)) events

unfoldable pub prune_events : ℕ → ℕ → Dict String (List ℕ) → Dict String (List ℕ)
unfolding prune_all keep is_nonempty
prune_events width now events = keep (λ e. is_nonempty e.1) (prune_all width now events)

unfoldable pub stale_keys : ℕ → ℕ → Dict String (List ℕ) → List String
unfolding prune_all keep is_nonempty
stale_keys width now events = keys (keep (λ e. not (is_nonempty e.1)) (prune_all width now events))

unfoldable pub remove_all : List String → Dict String ℕ → Dict String ℕ
unfolding remove
remove_all [] seen = seen
remove_all (k ∷ ks) seen = remove_all ks (remove k seen)

-- The part of `_trim_locked` below its guard.
unfoldable pub trim_over : ℕ → Limiter → Limiter
unfolding prune_events stale_keys remove_all evict
trim_over now l =
    let events = prune_events (window l) now l.events in
    let seen = remove_all (stale_keys (window l) now l.events) l.last_seen in
    let (events', seen') = evict (length seen) l.max_keys events seen in
    record l { events = events'; last_seen = seen' }

unfoldable pub trim : ℕ → Limiter → Limiter
unfolding trim_over
trim now l = if leb (length l.events) l.max_keys then l else trim_over now l

unfoldable pub limiter_key : String → String
unfolding sanitize_identity_value or_text
limiter_key key = or_text (sanitize_identity_value 512 key) "anonymous"

abbrev pub samples_of : Dict String (List ℕ) → String → List ℕ
samples_of events key = elim (lookup key events) [ none ↦ [] | some samples ↦ samples ]

-- The state with the deque and the time of a key written, then trimmed.
unfoldable pub store : String → ℕ → List ℕ → Limiter → Limiter
unfolding trim insert
store key now samples l =
    trim now
      (record l { events = insert key samples l.events; last_seen = insert key now l.last_seen })

abbrev first_or : ℕ → List ℕ → ℕ
first_or d [] = d
first_or d (s ∷ samples) = s

-- `allow`: the decision, the seconds to wait, and the new state.
unfoldable pub allow : String → ℕ → Limiter → Bool × ℕ × Limiter
allow key now l =
    let k = limiter_key key in
    let samples = drop_old (window l) now (samples_of l.events k) in
    if not l.enabled
    then (true, 0, l)
    else if leb l.max_requests (length samples)
    then (false, max 1 ((first_or now samples + window l - now) / l.ticks), store k now samples l)
    else (true, 0, store k now (samples ++ now ∷ []) l)
