-- ===== src/Signer/Lines.antt =====
-- `formatBase64` of pec-server/internal/common/signer.go ends, and breaks its text into lines.
use mathlib.Core.Path.{subst}
use go_pec.Base.{
  ltb, if◌then◌else◌, Bool-cases, length, take, drop, take-append-drop, length-drop, Text, join, ℕ,
  zero, suc, ◌+◌, ◌-◌, ◌≤◌, ◌<◌, ◌≡◌, refl, sym, ap, ◌∙◌, ◌≢◌, inl, inr, Bool, true, false, Option,
  some, List, [], ◌∷◌, ◌++◌, append-nil, arith,
}
use go_pec.Signer.Defs.{crlf, slice, format_from, format_base64}

-- Every line but the last has n bytes, and the last has some, at most n.
abbrev pub FillsLines : ℕ → List Text → Type 0
FillsLines n [] = Unit
FillsLines n (l ∷ []) = (0 < length l) × (length l ≤ n)
FillsLines n (l ∷ m ∷ ls) = (length l ≡ n) × FillsLines n (m ∷ ls)

abbrev pub concat : List Text → Text
concat [] = []
concat (l ∷ ls) = l ++ concat ls

-- The lines of a text: the specification that the loop meets.
abbrev pub Broken : ℕ → Text → Option Text → Type 0
Broken n s result =
    (ls : List Text) × (result ≡ some (join ls crlf)) × (concat ls ≡ s) × FillsLines n ls

drop-nil : (n : ℕ) → drop {A = ℕ} n [] ≡ []
drop-nil zero = refl
drop-nil (suc n) = refl

drop-drop : (s : Text) (n i : ℕ) → drop n (drop i s) ≡ drop (i + n) s
drop-drop s n zero = ap (λ (k : ℕ). drop k s) (omega arith)
drop-drop [] n (suc i) = drop-nil n ∙ sym (drop-nil (suc i + n))
drop-drop (a ∷ s) n (suc i) =
    let e : suc i + n ≡ suc (i + n) = omega arith in rw e (drop-drop s n i)

drop-eq-nil : (s : Text) (n : ℕ) → length s ≤ n → drop n s ≡ []
drop-eq-nil [] zero h = refl
drop-eq-nil [] (suc n) h = refl
drop-eq-nil (a ∷ s) zero h = absurd (omega arith)
drop-eq-nil (a ∷ s) (suc n) h = drop-eq-nil s n (omega arith)

length-take_of_le : (n : ℕ) (s : Text) → n ≤ length s → length (take n s) ≡ n
length-take_of_le zero s h = refl
length-take_of_le (suc n) [] h = absurd (omega arith)
length-take_of_le (suc n) (a ∷ s) h = ap suc (length-take_of_le n s (omega arith))

-- No lines fill an empty text.
no_lines : (n : ℕ) (ls : List Text) → 0 < n → FillsLines n ls → concat ls ≡ [] → ls ≡ []
no_lines n [] pos f e = refl
no_lines n ([] ∷ []) pos f e = absurd (omega (arith, f.0))
no_lines n ((a ∷ l) ∷ []) pos f e = cc
no_lines n ([] ∷ m ∷ ls) pos f e = absurd (omega (arith, f.0))
no_lines n ((a ∷ l) ∷ m ∷ ls) pos f e = cc

-- One line before those of the rest, with CRLF in between exactly when there is a rest.
extend :
    (n : ℕ) (line rest : Text) (ls : List Text) (more : Bool)
    → 0 < n
    → concat ls ≡ rest
    → FillsLines n ls
    → (more ≡ true → (length line ≡ n) × (rest ≢ []))
    → (more ≡ false → (0 < length line) × (length line ≤ n) × (rest ≡ []))
    → Broken n (line ++ rest) (some (line ++ (if more then crlf else []) ++ join ls crlf))
unfolding join
extend n line rest [] true pos c f full last = absurd ((full refl).1 (sym c))
extend n line rest (l ∷ ls) true pos c f full last =
    (line ∷ l ∷ ls, refl, ap (λ t. line ++ t) c, ((full refl).0, f))
extend n line rest ls false pos c f full last =
    let (some_byte, fits, done) = last refl in
    let none_left = no_lines n ls pos f (c ∙ done) in
    (
      line ∷ [],
      rw none_left (ap some (append-nil (line ++ []) ∙ append-nil line)),
      rw done,
      (some_byte, fits),
    )

-- One round, which writes the bytes from i up to `end`.
round :
    (s : Text) (n i end : ℕ) (ls : List Text)
    → 0 < n
    → i < end
    → end ≤ length s
    → end ≤ i + n
    → (end < length s → end ≡ i + n)
    → concat ls ≡ drop end s
    → FillsLines n ls
    → Broken n
        (drop i s)
        (some (slice i end s ++ (if ltb end (length s) then crlf else []) ++ join ls crlf))
unfolding slice
round s n i end ls pos some_byte within fits full c f =
    let tail = drop (end - i) (drop i s) in
    let at_end : tail ≡ drop end s =
      drop-drop s (end - i) i ∙ ap (λ (k : ℕ). drop k s) (omega arith) in
    let size : length (take (end - i) (drop i s)) ≡ end - i =
      length-take_of_le (end - i) (drop i s) (omega (arith, length-drop i s)) in
    subst
      (λ t. Broken n t (
        some
          (take (end - i) (drop i s) ++ (if ltb end (length s) then crlf else []) ++ join ls crlf)))
      (take-append-drop (end - i) (drop i s))
      (extend n (take (end - i) (drop i s)) tail ls (ltb end (length s)) pos (c ∙ sym at_end) f
        (λ h.
          let inner : end < length s = ground arith in
          (
            size ∙ (let e = full inner in omega arith),
            λ z.
                let gone : length (drop end s) ≡ 0 = ap length (sym at_end ∙ z) in
                absurd (omega (arith, gone, inner, length-drop end s)),
          ))
        (λ h. (omega arith, omega arith, at_end ∙ drop-eq-nil s end (ground arith))))

format_from-Broken :
    (s : Text) (n fuel i : ℕ)
    → 0 < n
    → length s - i < fuel
    → Broken n (drop i s) (format_from s n fuel i)
unfolding format_from join
format_from-Broken s n zero i pos enough = absurd (omega arith)
format_from-Broken s n (suc fuel) i pos enough = elim (Bool-cases (ltb i (length s))) [
  | inr out ↦ ([], rw out, sym (drop-eq-nil s i (ground arith)), tt)
  | inl inside ↦
      let (ls, e, c, f) = format_from-Broken s n fuel (i + n) pos (ground arith) in
      elim (Bool-cases (ltb (length s) (i + n))) [
        | inl long ↦
            rw (inside, long, e)
              (round s n i (length s) ls pos (ground arith) (ground arith) (ground arith)
                (λ h. absurd (omega arith))
                (c
                  ∙ drop-eq-nil s (i + n) (ground arith)
                  ∙ sym (drop-eq-nil s (length s) (omega arith)))
                f)
        | inr short ↦
            rw (inside, short, e)
              (round s n i (i + n) ls pos (omega arith) (ground arith) (omega arith) (λ h. refl) c
                f)
      ]
]

-- With lines of at least one byte the loop ends, and what it gives is the text broken into lines
-- by CRLF: the lines joined without it are the text, every line but the last is full, and the
-- last is neither empty nor too long.
pub format_base64-Broken : (s : Text) (n : ℕ) → 0 < n → Broken n s (format_base64 s n)
unfolding format_base64
format_base64-Broken s n pos = format_from-Broken s n (suc (length s)) 0 pos (omega arith)
