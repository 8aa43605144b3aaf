-- ===== src/SetValue/Contents.antt =====
-- What the operations on a list of distinct elements do to its membership and its length.
use redvector.Base.{
  suc, ◌≡◌, ◌↔◌, refl, sym, ◌∙◌, Bool, true, false, not, List, [], ◌∷◌, length, if◌then◌else◌,
  Bool-cases, inl, inr,
}
use redvector.SetValue.{contains, insert, without, collect}

module _ {A : Type 0} (eq : A → A → Bool) (law : (x y : A) → (eq x y ≡ true) ↔ (x ≡ y)) where
  -- No element twice.
  abbrev pub Unique : List A → Type 0
  Unique [] = Unit
  Unique (x ∷ xs) = (contains eq x xs ≡ false) × Unique xs

  eq_self : (x : A) → eq x x ≡ true
  eq_self x = (law x x).1 refl

  contains_same : (x y : A) (s : List A) → eq x y ≡ true → contains eq x s ≡ contains eq y s
  contains_same x y s e = rw ((law x y).0 e) refl

  pub contains-insert :
      (x y : A) (s : List A)
      → contains eq x (insert eq y s).0 ≡ (if eq x y then true else contains eq x s)
  contains-insert x y s = elim (Bool-cases (contains eq y s)) [
    | inr f ↦ rw f refl
    | inl t ↦ elim (Bool-cases (eq x y)) [
      | inl e ↦ rw (t, e) (contains_same x y s e ∙ t)
      | inr e ↦ rw (t, e) refl
    ]
  ]

  pub insert-Unique : (y : A) (s : List A) → Unique s → Unique (insert eq y s).0
  insert-Unique y s u = elim (Bool-cases (contains eq y s)) [ inr f ↦ rw f (f, u) | inl t ↦ rw t u ]

  pub insert_lem :
      (y : A) (s : List A)
      → ((insert eq y s).1 ≡ not (contains eq y s))
        × (length (insert eq y s).0 ≡ (if contains eq y s then length s else suc (length s)))
  insert_lem y s = elim (Bool-cases (contains eq y s)) [
    | inr f ↦ rw f (refl, refl)
    | inl t ↦ rw t (refl, refl)
  ]

  pub contains-without :
      (x y : A) (s : List A)
      → Unique s
      → contains eq x (without eq y s) ≡ (if eq x y then false else contains eq x s)
  contains-without x y [] u = elim (Bool-cases (eq x y)) [ inl e ↦ rw e refl | inr e ↦ rw e refl ]
  contains-without x y (z ∷ s) u = elim (Bool-cases (eq y z)) [
    | inl e ↦
        let same = (law y z).0 e in
        elim (Bool-cases (eq x z)) [
          | inl f ↦ rw (e, f, same, f) (contains_same x z s f ∙ u.0)
          | inr f ↦ rw (e, f, same, f) refl
        ]
    | inr e ↦ elim (Bool-cases (eq x z)) [
      | inr f ↦ rw (e, f) (contains-without x y s u.1)
      | inl f ↦
          let other : eq x y ≡ false = elim (Bool-cases (eq x y)) [
            | inr g ↦ g
            | inl g ↦ absurd (cc (e, (law y z).1 (sym ((law x y).0 g) ∙ (law x z).0 f)))
          ] in
          rw (e, f, other) refl
    ]
  ]

  still_absent :
      (z y : A) (s : List A)
      → contains eq z s ≡ false
      → (if eq z y then false else contains eq z s) ≡ false
  still_absent z y s h = elim (Bool-cases (eq z y)) [ inl e ↦ rw e refl | inr e ↦ rw e h ]

  pub without-Unique : (y : A) (s : List A) → Unique s → Unique (without eq y s)
  without-Unique y [] u = tt
  without-Unique y (z ∷ s) u = elim (Bool-cases (eq y z)) [
    | inl e ↦ rw e u.1
    | inr e ↦ rw e (contains-without z y s u.1 ∙ still_absent z y s u.0, without-Unique y s u.1)
  ]

  pub contains-collect : (x : A) (xs : List A) → contains eq x (collect eq xs) ≡ contains eq x xs
  contains-collect x [] = refl
  contains-collect x (y ∷ xs) =
      contains-insert x y (collect eq xs) ∙ rw (contains-collect x xs) refl

  pub collect-Unique : (xs : List A) → Unique (collect eq xs)
  collect-Unique [] = tt
  collect-Unique (x ∷ xs) = insert-Unique x (collect eq xs) (collect-Unique xs)
