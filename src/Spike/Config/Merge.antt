-- ===== src/Spike/Config/Merge.antt =====
-- What a field of the merged configuration holds.
use batch_it_protocol.Prelude.{
  Bool, List, [], ◌∷◌, arith, Option-cases, false, Bool-cases, Option, ap, if◌then◌else◌, inl, inr,
  none, refl, some, sym, true, ◌∙◌, ◌≡◌, ℕ,
}
use batch_it_protocol.Prelude.Texts.{same_text}
use Prim.Native.String.{String}
use mathlib.Core.Path.{subst}
use text.Mathlib.TextEquality.{eq_iff}
use batch_it_protocol.Spike.Config.{
  Fields, Json, object, spread, deep_merge, field, get, merge_into, merged, no_fields, set,
}

-- No two fields have the same name, as in what JSON.parse returns.
abbrev pub AreDistinct : Fields → Type 0
AreDistinct no_fields = Unit
AreDistinct (field k v fs) = (get k fs ≡ none) × AreDistinct fs

shadow {ℓ} :
    {A : Type ℓ} (u v w : A) (b : Bool)
    → (if b then v else w) ≡ (if b then v else if b then u else w)
shadow u v w true = refl
shadow u v w false = refl

get-set :
    (j k : String) (v : Json) (fs : Fields)
    → get j (set k v fs) ≡ (if same_text j k then some v else get j fs)
get-set j k v no_fields = refl
get-set j k v (field i u fs) = elim (Bool-cases (same_text k i)) [
  | inl e ↦ rw (e, ← (eq_iff k i).0 e) (shadow _ _ _ (same_text j k))
  | inr e ↦ elim (Bool-cases (same_text j k)) [
    | inl d ↦
        rw (e, d)
          (let apart : same_text j i ≡ false =
              subst (λ t. same_text t i ≡ false) (sym ((eq_iff j k).0 d)) e in
            rw (apart, get-set j k v fs, d) refl)
    | inr d ↦ rw (e, get-set j k v fs, d) refl
  ]
]

-- The value of a field: the override merged with the base, or what was there.
abbrev pub overridden : (ℕ → String) → String → Fields → Option Json → Option Json → Option Json
overridden index_key j base (some v) old = some (merged index_key (get j base) v)
overridden index_key j base none old = old

get-merge_into :
    (index_key : ℕ → String) (j : String) (base out over : Fields)
    → AreDistinct over
    → get j (merge_into index_key base out over)
      ≡ overridden index_key j base (get j over) (get j out)
unfolding merge_into
get-merge_into index_key j base out no_fields h = refl
get-merge_into index_key j base out (field k v fs) (fresh, h) =
    let rest = get-merge_into index_key j base (set k (merged index_key (get k base) v) out) fs h in
    elim (Bool-cases (same_text j k)) [
      | inl d ↦
          let same = (eq_iff j k).0 d in
          let none_left : get j fs ≡ none = subst (λ t. get t fs ≡ none) (sym same) fresh in
          rest
          ∙ rw (none_left, d, get-set j k (merged index_key (get k base) v) out, d)
              (ap (λ t. some (merged index_key (get t base) v)) (sym same))
      | inr d ↦ rest ∙ rw (d, get-set j k (merged index_key (get k base) v) out, d) refl
    ]

-- JSON.parse returns an object, here and further down, with no name twice.
unfoldable mutual
  pub IsParsed : Json → Type 0
  IsParsed (object fs) = AreParsed fs
  IsParsed _ = Unit

  pub AreParsed : Fields → Type 0
  AreParsed no_fields = Unit
  AreParsed (field k v fs) = (get k fs ≡ none) × IsParsed v × AreParsed fs

AreParsed-distinct : (fs : Fields) → AreParsed fs → AreDistinct fs
unfolding AreParsed
AreParsed-distinct no_fields h = tt
AreParsed-distinct (field k v fs) (fresh, _, rest) = (fresh, AreParsed-distinct fs rest)

AreParsed-get :
    (k : String) (fs : Fields) {v : Json} → AreParsed fs → get k fs ≡ some v → IsParsed v
unfolding AreParsed
AreParsed-get k no_fields h e = cc
AreParsed-get k (field j w fs) {v} (_, here_, rest) e = elim (Bool-cases (same_text k j)) [
  | inl same ↦ let found : w ≡ v = ground arith in subst (λ x. IsParsed x) found here_
  | inr other ↦ AreParsed-get k fs rest (ground arith)
]

-- What stands at the end of a path of names: a value that is no object as it is, an object by an
-- empty one.
abbrev pub at_path : List String → Option Json → Option Json
at_path [] (some (object _)) = some (object no_fields)
at_path [] v = v
at_path (k ∷ ks) (some (object fs)) = at_path ks (get k fs)
at_path (_ ∷ _) _ = none

-- What is to stand there when `new` overrides `old`: as long as the path leads through objects in
-- both, whichever of the two it leads on in; at the end, or where they part, the new value if there
-- is one. An old array counts as the object of its items.
abbrev pub chosen : (ℕ → String) → List String → Option Json → Option Json → Option Json
chosen index_key ks old none = at_path ks old
chosen index_key [] old (some v) = at_path [] (some v)
chosen index_key (k ∷ ks) (some u) (some (object o)) = elim (spread index_key u) [
  | none ↦ at_path ks (get k o)
  | some b ↦ chosen index_key ks (get k b) (get k o)
]
chosen index_key (k ∷ ks) _ (some v) = at_path (k ∷ ks) (some v)

chosen-none :
    (index_key : ℕ → String) (ks : List String) (old : Option Json)
    → chosen index_key ks old none ≡ at_path ks old
chosen-none index_key [] old = refl
chosen-none index_key (k ∷ ks) old = refl

-- A merged value has at each path what is chosen there.
merged-chosen :
    (index_key : ℕ → String) (ks : List String) (old : Option Json) (v : Json)
    → IsParsed v
    → at_path ks (some (merged index_key old v)) ≡ chosen index_key ks old (some v)
unfolding merged IsParsed
merged-chosen index_key [] none v h = refl
merged-chosen index_key [] (some u) (object o) h = elim (Option-cases (spread index_key u)) [
  | inl no_fields_ ↦ rw (at_path, no_fields_) refl
  | inr (b, fields) ↦ rw (at_path, fields) refl
]
merged-chosen index_key [] (some u) v h = refl
merged-chosen index_key (k ∷ ks) none (object o) h = refl
merged-chosen index_key (k ∷ ks) none v h = refl
merged-chosen index_key (k ∷ ks) (some u) (object o) h = elim (Option-cases (spread index_key u)) [
  | inl no_fields_ ↦ rw (at_path, chosen, no_fields_) refl
  | inr (b, fields) ↦
      let field_k = get-merge_into index_key k b b o (AreParsed-distinct o h) in
      elim (Option-cases (get k o)) [
        | inl untouched ↦
            rw (at_path, chosen, fields, field_k, untouched)
              (sym (chosen-none index_key ks (get k b)))
        | inr (w, named) ↦
            rw (at_path, chosen, fields, field_k, named)
              (merged-chosen index_key ks (get k b) w (AreParsed-get k o h named))
      ]
]
merged-chosen index_key (k ∷ ks) (some u) v h = refl

-- At the end of every path of names the merged configuration has what the overrides and the base
-- determine: as long as the path leads through objects in both it is followed in both, a name that
-- the overrides leave out leads on in the base alone, and the override's value stands wherever it is
-- no object or the base has none to merge it with. So nothing of the base is lost but what is
-- overridden, at any depth. The overrides have no name twice in one object.
pub deep_merge-at_path :
    (index_key : ℕ → String) (ks : List String) (base over : Fields)
    → AreParsed over
    → at_path ks (some (object (deep_merge index_key base over)))
      ≡ chosen index_key ks (some (object base)) (some (object over))
unfolding deep_merge merged IsParsed
deep_merge-at_path index_key ks base over h =
    merged-chosen index_key ks (some (object base)) (object over) h
