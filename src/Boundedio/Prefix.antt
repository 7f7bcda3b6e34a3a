-- ===== src/Boundedio/Prefix.antt =====
-- What a buffer of internal/boundedio/buffer.go holds after any writes.
use mathlib.Core.Path.{subst}
use mathlib.Core.List.{append-nil, append_assoc}
use secrets_broker.Base.{
  ℕ, zero, suc, ◌+◌, ◌-◌, ◌≤◌, ◌<◌, ◌≡◌, refl, sym, ap, ◌∙◌, ◌↔◌, inl, inr, true, Bool-cases, List,
  [], ◌∷◌, ◌++◌, length, length-append, ltb, if◌then◌else◌, arith,
}
use secrets_broker.Boundedio.{Buffer, new_buffer, take, write, write_all}

abbrev pub concat : List (List ℕ) → List ℕ
concat [] = []
concat (p ∷ ps) = p ++ concat ps

take-all : (n : ℕ) (xs : List ℕ) → length xs ≤ n → take n xs ≡ xs
unfolding take
take-all zero [] h = refl
take-all zero (x ∷ xs) h = absurd (omega (arith, h))
take-all (suc n) [] h = refl
take-all (suc n) (x ∷ xs) h = ap (λ ys. x ∷ ys) (take-all n xs (omega (arith, h)))

take-nil : (n : ℕ) → take n [] ≡ []
unfolding take
take-nil zero = refl
take-nil (suc n) = refl

length-take :
    (n : ℕ) (xs : List ℕ) → length (take n xs) ≡ (if ltb n (length xs) then n else length xs)
unfolding take
length-take zero [] = refl
length-take zero (x ∷ xs) = ground arith
length-take (suc n) [] = ground arith
length-take (suc n) (x ∷ xs) = ground (arith, length-take n xs)

-- The front of `xs ++ ys` by the length of `xs`.
take-append : (n : ℕ) (xs ys : List ℕ) → take n (xs ++ ys) ≡ take n xs ++ take (n - length xs) ys
unfolding take
take-append zero [] ys = refl
take-append zero (x ∷ xs) ys =
    let e : 0 ≡ 0 - suc (length xs) = omega arith in ap (λ k. take k ys) e
take-append (suc n) [] ys = let e : suc n ≡ suc n - 0 = omega arith in ap (λ k. take k ys) e
take-append (suc n) (x ∷ xs) ys =
    let e : n - length xs ≡ suc n - suc (length xs) = omega arith in
    ap (λ zs. x ∷ zs) (take-append n xs ys ∙ ap (λ k. take n xs ++ take k ys) e)

-- The buffer holds the front of what was written to it.
pub record Holds (limit : ℕ) (written : List ℕ) (b : Buffer) : Type 0 where
  pub same_limit : b.limit ≡ limit
  pub front : b.buf ≡ take limit written
  pub told : b.exceeded ≡ ltb limit (length written)

-- What a write that fits adds, and what one that does not fit adds.
module _ (limit : ℕ) (written p : List ℕ) (b : Buffer) (h : Holds limit written b) where
  kept_lem : length b.buf ≡ (if ltb limit (length written) then limit else length written)
  kept_lem = ap length h.front ∙ length-take limit written

  fits : length b.buf + length p ≤ b.limit → b.buf ++ p ≡ take limit (written ++ p)
  fits small =
      let room : length p ≤ limit - length written = ground (arith, kept_lem, h.same_limit) in
      ap (λ xs. xs ++ p) h.front
      ∙ ap (λ ys. take limit written ++ ys) (sym (take-all (limit - length written) p room))
      ∙ sym (take-append limit written p)

  cut :
      length b.buf < b.limit → b.buf ++ take (b.limit - length b.buf) p ≡ take limit (written ++ p)
  cut room =
      let same : b.limit - length b.buf ≡ limit - length written =
        ground (arith, kept_lem, h.same_limit) in
      ap (λ xs. xs ++ take (b.limit - length b.buf) p) h.front
      ∙ ap (λ k. take limit written ++ take k p) same
      ∙ sym (take-append limit written p)

  full : b.limit ≤ length b.buf → b.buf ≡ take limit (written ++ p)
  unfolding take
  full over =
      let none_left : 0 ≡ limit - length written = ground (arith, kept_lem, h.same_limit) in
      h.front
      ∙ sym (append-nil (take limit written))
      ∙ ap (λ k. take limit written ++ take k p) none_left
      ∙ sym (take-append limit written p)

  write-Holds : Holds limit (written ++ p) (write p b).1
  unfolding write
  write-Holds = elim (Bool-cases (ltb b.limit (length b.buf + length p))) [
    | inr small ↦ rw small (record {
      same_limit = h.same_limit;
      front = fits (ground arith);
      told = ground (arith, h.told, h.same_limit, kept_lem, length-append written p);
    })
    | inl big ↦ elim (Bool-cases (ltb (length b.buf) b.limit)) [
      | inl room ↦
          rw (big, room)
            (record {
              same_limit = h.same_limit;
              front = cut (ground arith);
              told = ground (arith, h.same_limit, kept_lem, length-append written p);
            })
      | inr over ↦
          rw (big, over)
            (record {
              same_limit = h.same_limit;
              front = full (ground arith);
              told = ground (arith, h.same_limit, kept_lem, length-append written p);
            })
    ]
  ]

write_all-Holds :
    (limit : ℕ) (ps : List (List ℕ)) (written : List ℕ) (b : Buffer)
    → Holds limit written b
    → Holds limit (written ++ concat ps) (write_all ps b)
unfolding write_all
write_all-Holds limit [] written b h = subst (λ w. Holds limit w b) (sym (append-nil written)) h
write_all-Holds limit (p ∷ ps) written b h =
    subst (λ w. Holds limit w (write_all ps (write p b).1)) (append_assoc written p (concat ps))
      (write_all-Holds limit ps (written ++ p) (write p b).1 (write-Holds limit written p b h))

-- Whatever a process writes, a new buffer then holds the front of all of it together, up to the limit,
-- and tells that the limit was exceeded exactly when more than that was written.
pub write_all_lem :
    (limit : ℕ) (ps : List (List ℕ))
    → ((write_all ps (new_buffer limit)).buf ≡ take limit (concat ps))
      × (((write_all ps (new_buffer limit)).exceeded ≡ true) ↔ (limit < length (concat ps)))
write_all_lem limit ps =
    let h = write_all-Holds limit ps [] (new_buffer limit) (empty limit) in
    (h.front, (λ e. ground (arith, e, h.told), λ l. ground (arith, l, h.told)))
  where
    empty : (n : ℕ) → Holds n [] (new_buffer n)
    empty n = record { same_limit = refl; front = sym (take-nil n); told = ground arith }
