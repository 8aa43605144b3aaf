-- ===== src/Dict/Laws.antt =====
-- What reads, writes and removals in a map do to what its keys read as.
use redvector.Base.{
  ◌≡◌, refl, sym, ◌∙◌, ap, true, false, none, some, [], ◌∷◌, Bytes, eq_bytes, eq_bytes_iff,
  if◌then◌else◌, Bool-cases, inl, inr, All, subst, arith,
}
use redvector.Dict.{Dict, lookup, insert, remove}

other_key :
    (x key y : Bytes) → eq_bytes key y ≡ false → eq_bytes x y ≡ true → eq_bytes x key ≡ false
other_key x key y f e = elim (Bool-cases (eq_bytes x key)) [
  | inr g ↦ g
  | inl g ↦
      let same = sym ((eq_bytes_iff x key).0 g) ∙ (eq_bytes_iff x y).0 e in
      absurd (cc (f, (eq_bytes_iff key y).1 same))
]

module _ {V : Type 0} where
  -- No key twice.
  abbrev pub Distinct : Dict V → Type 0
  Distinct [] = Unit
  Distinct (entry ∷ entries) = (lookup entry.0 entries ≡ none) × Distinct entries

  lookup-same :
      (x y : Bytes) (entries : Dict V) → eq_bytes x y ≡ true → lookup x entries ≡ lookup y entries
  lookup-same x y entries e = ap (λ r. lookup r entries) ((eq_bytes_iff x y).0 e)

  pub lookup-insert :
      (x key : Bytes) (value : V) (entries : Dict V)
      → lookup x (insert key value entries)
        ≡ (if eq_bytes x key then some value else lookup x entries)
  unfolding lookup insert
  lookup-insert x key value [] = refl
  lookup-insert x key value (entry ∷ entries) = elim (Bool-cases (eq_bytes key entry.0)) [
    | inr f ↦ elim (Bool-cases (eq_bytes x entry.0)) [
      | inr e ↦ rw (f, e) (lookup-insert x key value entries)
      | inl e ↦
          let other : eq_bytes x key ≡ false = other_key x key entry.0 f e in rw (f, e, other) refl
    ]
    | inl f ↦
        let same = (eq_bytes_iff key entry.0).0 f in
        elim (Bool-cases (eq_bytes x key)) [
          | inl e ↦ rw (f, e) refl
          | inr e ↦
              let e' : eq_bytes x entry.0 ≡ false = ap (eq_bytes x) (sym same) ∙ e in
              rw (f, e, e') refl
        ]
  ]

  pub lookup-remove :
      (x key : Bytes) (entries : Dict V)
      → Distinct entries
      → lookup x (remove key entries) ≡ (if eq_bytes x key then none else lookup x entries)
  unfolding lookup remove
  lookup-remove x key [] d = elim (Bool-cases (eq_bytes x key)) [
    | inl e ↦ rw e refl
    | inr e ↦ rw e refl
  ]
  lookup-remove x key (entry ∷ entries) d = elim (Bool-cases (eq_bytes key entry.0)) [
    | inr f ↦ elim (Bool-cases (eq_bytes x entry.0)) [
      | inr e ↦ rw (f, e) (lookup-remove x key entries d.1)
      | inl e ↦
          let other : eq_bytes x key ≡ false = other_key x key entry.0 f e in rw (f, e, other) refl
    ]
    | inl f ↦
        let same = (eq_bytes_iff key entry.0).0 f in
        elim (Bool-cases (eq_bytes x key)) [
          | inl e ↦ rw (f, e) (lookup-same x key entries e ∙ ap (λ r. lookup r entries) same ∙ d.0)
          | inr e ↦
              let e' : eq_bytes x entry.0 ≡ false = ap (eq_bytes x) (sym same) ∙ e in
              rw (f, e, e') refl
        ]
  ]

  pub insert-Distinct :
      (key : Bytes) (value : V) (entries : Dict V)
      → Distinct entries
      → Distinct (insert key value entries)
  unfolding insert lookup
  insert-Distinct key value [] d = (refl, tt)
  insert-Distinct key value (entry ∷ entries) d = elim (Bool-cases (eq_bytes key entry.0)) [
    | inl e ↦ rw e (ap (λ r. lookup r entries) ((eq_bytes_iff key entry.0).0 e) ∙ d.0, d.1)
    | inr e ↦
        let apart : eq_bytes entry.0 key ≡ false =
          other_key entry.0 key entry.0 e ((eq_bytes_iff entry.0 entry.0).1 refl) in
        rw e (
          lookup-insert entry.0 key value entries ∙ rw apart d.0,
          insert-Distinct key value entries d.1,
        )
  ]

  pub remove-Distinct :
      (key : Bytes) (entries : Dict V) → Distinct entries → Distinct (remove key entries)
  unfolding remove
  remove-Distinct key [] d = tt
  remove-Distinct key (entry ∷ entries) d = elim (Bool-cases (eq_bytes key entry.0)) [
    | inl e ↦ rw e d.1
    | inr e ↦
        let apart : eq_bytes entry.0 key ≡ false =
          other_key entry.0 key entry.0 e ((eq_bytes_iff entry.0 entry.0).1 refl) in
        rw e (lookup-remove entry.0 key entries d.1 ∙ rw apart d.0, remove-Distinct key entries d.1)
  ]

  pub lookup-remove_other :
      (x key : Bytes) (entries : Dict V)
      → eq_bytes x key ≡ false
      → lookup x (remove key entries) ≡ lookup x entries
  unfolding lookup remove
  lookup-remove_other x key [] e = refl
  lookup-remove_other x key (entry ∷ entries) e = elim (Bool-cases (eq_bytes key entry.0)) [
    | inr f ↦ rw f (rw (lookup-remove_other x key entries e) refl)
    | inl f ↦
        let e' : eq_bytes x entry.0 ≡ false =
          ap (eq_bytes x) (sym ((eq_bytes_iff key entry.0).0 f)) ∙ e in
        rw (f, e') refl
  ]

  pub lookup-insert_other :
      (x key : Bytes) (value : V) (entries : Dict V)
      → eq_bytes x key ≡ false
      → lookup x (insert key value entries) ≡ lookup x entries
  lookup-insert_other x key value entries e = lookup-insert x key value entries ∙ rw e refl

  -- What holds of every entry holds of what is found.
  pub All-lookup :
      (P : V → Type 0) (key : Bytes) (value : V) (entries : Dict V)
      → All (λ entry. P entry.1) entries
      → lookup key entries ≡ some value
      → P value
  unfolding lookup
  All-lookup P key value [] h e = cc
  All-lookup P key value (entry ∷ entries) h e =
      ground (arith, All-lookup P key value entries h.1, h.0, subst P)
