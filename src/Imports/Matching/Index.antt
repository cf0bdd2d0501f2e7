-- ===== src/Imports/Matching/Index.antt =====
-- The index holds under a key just the vendors of the contacts with that key, so a vendor matched by a
-- contact is the one vendor of all contacts that agree with it.
use Prim.Native.String.{count}
use vendor_cat.Base.{
  String, Bool, true, false, not, ◌&&◌, ◌||◌, Option, none, some, List, [], ◌∷◌, ◌≡◌, refl, sym, ap,
  ◌∙◌, subst, any, contains, ◌==◌, string_eq, arith, inl, inr, ◌⊎◌, Bool-cases, leb, if◌then◌else◌,
}
use vendor_cat.Base.Text.{strip, is_empty}
use vendor_cat.Base.Dict.{Dict, lookup, insert, lookup-insert, some_inj}
use vendor_cat.Imports.{normalize_email, normalize_phone}
use vendor_cat.Imports.Matching.{
  IndexRow, ContactMaps, no_maps, ids_under, add_id, add_if, add_row, load_contact_maps, only_id,
  sole, several, or_else, match_vendor_by_contact, email_domain, phone_suffix,
}

or_assoc : (a b c : Bool) → ((a || b) || c) ≡ (a || (b || c))
or_assoc a b c = ground arith

or_comm : (a b : Bool) → (a || b) ≡ (b || a)
or_comm a b = ground arith

contains-add_id :
    (ids : List String) (new_id v : String)
    → contains (add_id ids new_id) v ≡ (contains ids v || new_id == v)
unfolding add_id contains
contains-add_id ids new_id v = elim (Bool-cases (contains ids new_id)) [
  | inr other ↦ rw other (or_comm (new_id == v) (contains ids v))
  | inl listed ↦ elim (Bool-cases (new_id == v)) [
    | inr differ ↦ rw (listed, differ) (ground arith)
    | inl same ↦
        let e : new_id ≡ v = (string_eq.eqb_iff new_id v).0 same in
        let found = subst (λ x. contains ids x ≡ true) e listed in rw (listed, same, found) refl
  ]
]

ids_under-insert :
    (key k : String) (ids : List String) (table : Dict String (List String))
    → ids_under k (insert key ids table) ≡ (if key == k then ids else ids_under k table)
ids_under-insert key k ids table = ground (arith, lookup-insert key k ids table)

added :
    (key k vendor_id v : String) (table : Dict String (List String))
    → contains (if key == k then add_id (ids_under key table) vendor_id else ids_under k table) v
      ≡ (contains (ids_under k table) v || (key == k && vendor_id == v))
added key k vendor_id v table = elim (Bool-cases (key == k)) [
  | inr other ↦ rw other (ground arith)
  | inl same ↦
      let e : key ≡ k = (string_eq.eqb_iff key k).0 same in
      rw same (
        ap (λ j. contains (add_id (ids_under j table) vendor_id) v) e
        ∙ contains-add_id (ids_under k table) vendor_id v)
]

contains-add_if :
    (wanted : Bool) (key vendor_id k v : String) (table : Dict String (List String))
    → contains (ids_under k (add_if wanted key vendor_id table)) v
      ≡ (contains (ids_under k table) v || (wanted && key == k && vendor_id == v))
unfolding add_if
contains-add_if wanted key vendor_id k v table = elim (Bool-cases wanted) [
  | inr off ↦ rw off (ground arith)
  | inl on ↦
      let ids = add_id (ids_under key table) vendor_id in
      rw on (
        ap (λ xs. contains xs v) (ids_under-insert key k ids table) ∙ added key k vendor_id v table)
]

-- One of the four tables on its own: which rows enter it, and under which key.
pub record Keyed : Type 0 where
  pub wanted : IndexRow → Bool
  pub key : IndexRow → String

abbrev pub vendor : IndexRow → String
vendor row = strip row.vendor_id

table_of : Keyed → List IndexRow → Dict String (List String) → Dict String (List String)
table_of f [] table = table
table_of f (row ∷ rows) table =
    table_of f rows (add_if (f.wanted row) (f.key row) (vendor row) table)

-- A contact of the vendor has the key.
abbrev pub lists : Keyed → String → String → IndexRow → Bool
lists f k v row = f.wanted row && f.key row == k && vendor row == v

contains-table_of :
    (f : Keyed) (rows : List IndexRow) (k v : String) (table : Dict String (List String))
    → contains (ids_under k (table_of f rows table)) v
      ≡ (contains (ids_under k table) v || any (lists f k v) rows)
unfolding table_of any
contains-table_of f [] k v table = ground arith
contains-table_of f (row ∷ rows) k v table =
    contains-table_of f rows k v (add_if (f.wanted row) (f.key row) (vendor row) table)
    ∙ ap (λ b. b || any (lists f k v) rows)
        (contains-add_if (f.wanted row) (f.key row) (vendor row) k v table)
    ∙ or_assoc (contains (ids_under k table) v) (lists f k v row) (any (lists f k v) rows)

abbrev pub by_email : Keyed
by_email = record {
  wanted = λ row. not (is_empty (vendor row)) && not (is_empty (normalize_email row.email));
  key = λ row. normalize_email row.email;
}

abbrev pub by_email_domain : Keyed
by_email_domain = record {
  wanted = λ row.
      not (is_empty (vendor row)) && not (is_empty (email_domain (normalize_email row.email)));
  key = λ row. email_domain (normalize_email row.email);
}

abbrev pub by_phone : Keyed
by_phone = record {
  wanted = λ row. not (is_empty (vendor row)) && leb 7 (count (normalize_phone row.phone));
  key = λ row. normalize_phone row.phone;
}

abbrev pub by_phone_suffix : Keyed
by_phone_suffix = record {
  wanted = λ row.
      not (is_empty (vendor row)) && not (is_empty (phone_suffix (normalize_phone row.phone)));
  key = λ row. phone_suffix (normalize_phone row.phone);
}

-- The loop over the rows fills the four tables side by side.
load_contact_maps_tables :
    (rows : List IndexRow) (maps : ContactMaps)
    → ((load_contact_maps rows maps).by_email ≡ table_of by_email rows maps.by_email)
      × ((load_contact_maps rows maps).by_email_domain
          ≡ table_of by_email_domain rows maps.by_email_domain)
      × ((load_contact_maps rows maps).by_phone ≡ table_of by_phone rows maps.by_phone)
      × ((load_contact_maps rows maps).by_phone_suffix
          ≡ table_of by_phone_suffix rows maps.by_phone_suffix)
unfolding load_contact_maps table_of add_row
load_contact_maps_tables [] maps = (refl, refl, refl, refl)
load_contact_maps_tables (row ∷ rows) maps = load_contact_maps_tables rows (add_row row maps)

-- The vendor has a contact with the key, and every contact with the key is the vendor's.
abbrev pub Vouches : Keyed → List IndexRow → String → String → Type 0
Vouches f rows k v =
    (any (lists f k v) rows ≡ true) × ((w : String) → any (lists f k w) rows ≡ true → w ≡ v)

only_id_one : (ids : List String) (v : String) → only_id ids ≡ some v → ids ≡ v ∷ []
only_id_one [] v h = absurd (cc)
only_id_one (w ∷ []) v h = ap (λ x. x ∷ []) (some_inj w v h)
only_id_one (w ∷ (u ∷ ids)) v h = absurd (cc)

under_empty : (k w : String) → contains (ids_under k []) w ≡ false
unfolding lookup contains
under_empty k w = refl

contains_one : (v w : String) → contains (v ∷ []) w ≡ (v == w)
unfolding contains
contains_one v w = ground arith

only_id-Vouches :
    (f : Keyed) (rows : List IndexRow) (k v : String)
    → only_id (ids_under k (table_of f rows [])) ≡ some v
    → Vouches f rows k v
only_id-Vouches f rows k v h =
    let listed : (w : String) → any (lists f k w) rows ≡ (v == w) = λ w.
      ap (λ b. b || any (lists f k w) rows) (sym (under_empty k w))
      ∙ sym (contains-table_of f rows k w [])
      ∙ ap (λ ids. contains ids w) (only_id_one _ v h)
      ∙ contains_one v w in
    (
      listed v ∙ (string_eq.eqb_iff v v).1 refl,
      λ w q. sym ((string_eq.eqb_iff v w).0 (sym (listed w) ∙ q)),
    )

pair_left : (x y : String × String) → some x ≡ some y → x.0 ≡ y.0
pair_left x y h = ap (λ z. z.0) (some_inj x y h)

sole_only :
    (on : Bool) (ids : List String) (note v n : String)
    → sole on ids note ≡ some (v, n)
    → only_id ids ≡ some v
unfolding sole
sole_only true [] note v n h = absurd (cc)
sole_only true (w ∷ []) note v n h = ap some (pair_left (w, note) (v, n) h)
sole_only true (w ∷ (u ∷ ids)) note v n h = absurd (cc)
sole_only false [] note v n h = absurd (cc)
sole_only false (w ∷ []) note v n h = absurd (cc)
sole_only false (w ∷ (u ∷ ids)) note v n h = absurd (cc)

sole_inv :
    (on here : Bool) (ids : List String) (note v n : String)
    → sole on (if here then ids else []) note ≡ some (v, n)
    → only_id ids ≡ some v
unfolding sole
sole_inv on true ids note v n h = sole_only on ids note v n h
sole_inv on false ids note v n h = absurd (cc)

-- The notes on ambiguous sets come with no vendor.
several_none :
    (on : Bool) (ids : List String) (note : String) (r : String × String)
    → r.0 ≡ ""
    → (or_else (several on ids note) r).0 ≡ ""
unfolding several or_else
several_none on ids note r h = ground (arith, h)

first_of_four :
    (a b c d : Option (String × String)) (r : String × String) (v n : String)
    → is_empty v ≡ false
    → r.0 ≡ ""
    → or_else a (or_else b (or_else c (or_else d r))) ≡ (v, n)
    → (a ≡ some (v, n)) ⊎ ((b ≡ some (v, n)) ⊎ ((c ≡ some (v, n)) ⊎ (d ≡ some (v, n))))
unfolding or_else
first_of_four (some x) b c d r v n named h q = inl (ap some q)
first_of_four none (some x) c d r v n named h q = inr (inl (ap some q))
first_of_four none none (some x) d r v n named h q = inr (inr (inl (ap some q)))
first_of_four none none none (some x) r v n named h q = inr (inr (inr (ap some q)))
first_of_four none none none none r v n named h q =
    let e : "" ≡ v = sym h ∙ ap (λ x. x.0) q in
    absurd (unfold is_empty in cc (subst (λ x. is_empty x ≡ false) (sym e) named))

-- A vendor that is matched by a contact's address or number is the one vendor of all contacts in the
-- index that agree with it: on the address, the number, the domain of the address, or the last seven
-- digits of the number.
pub match_vendor_by_contact-Vouches :
    (rows : List IndexRow) (email phone v note : String)
    → is_empty v ≡ false
    → match_vendor_by_contact (load_contact_maps rows no_maps) email phone ≡ (v, note)
    → Vouches by_email rows (normalize_email email) v
      ⊎ (Vouches by_phone rows (normalize_phone phone) v
          ⊎ (Vouches by_email_domain rows (email_domain (normalize_email email)) v
              ⊎ Vouches by_phone_suffix rows (phone_suffix (normalize_phone phone)) v))
unfolding match_vendor_by_contact
match_vendor_by_contact-Vouches rows email phone v note named h =
    let (by_e, by_d, by_p, by_s) = load_contact_maps_tables rows no_maps in
    let maps = load_contact_maps rows no_maps in
    let e = normalize_email email in
    let p = normalize_phone phone in
    let vouch : (f : Keyed) (k : String) (table : Dict String (List String))
        → table ≡ table_of f rows []
        → only_id (ids_under k table) ≡ some v
        → Vouches f rows k v =
      λ f k table same one.
        only_id-Vouches f rows k v (subst (λ t. only_id (ids_under k t) ≡ some v) same one) in
    elim (first_of_four _ _ _ _ _ v note named
      (several_none _ _ _ _
        (several_none _ _ _ _ (several_none _ _ _ _ (several_none _ _ _ _ refl))))
      h) [
        | inl q ↦ inl (vouch by_email e maps.by_email by_e (sole_inv _ _ _ _ v note q))
        | inr (inl q) ↦ inr (inl (vouch by_phone p maps.by_phone by_p (sole_inv _ _ _ _ v note q)))
        | inr (inr (inl q)) ↦ inr (
            inr
              (inl (vouch by_email_domain _ maps.by_email_domain by_d (sole_inv _ _ _ _ v note q))))
        | inr (inr (inr q)) ↦ inr (
            inr
              (inr (vouch by_phone_suffix _ maps.by_phone_suffix by_s (sole_inv _ _ _ _ v note q))))
      ]
