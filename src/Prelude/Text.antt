-- ===== src/Prelude/Text.antt =====
-- Python's operations on texts, as lists of characters: `s.startswith(t)`, `s[:n]`, `s.replace(t, u)`
-- and `in`.
use Prim.Native.Nat.{ℕ, zero, suc, ◌-◌, ◌≤◌}
use Prim.Native.Char.{Char, code}
use Prim.Native.String.{String, [], ◌∷◌, ◌++◌, count}
use text.Mathlib.TextLemmas.{nil-append, cons-append, length-cons}
use mathlib.Core.Path.{◌≡◌, refl, sym, ◌∙◌, ap}
use mathlib.Core.Logic.{inl, inr}
use native.Mathlib.Omega.{arith}
use mathlib.Core.Bool.{Bool, true, false, ◌&&◌, ◌||◌}
use ha_hue_entertainment.Prelude.Tests.{◌==◌, if◌then◌else◌, Bool-cases}

-- s[n:]
unfoldable pub drop : ℕ → String → String
drop zero s = s
drop (suc n) [] = []
drop (suc n) (c ∷ s) = drop n s

unfoldable pub starts : String → String → Bool
starts [] s = true
starts (c ∷ t) [] = false
starts (c ∷ t) (d ∷ s) = (code c == code d) && starts t s

unfoldable pub take : ℕ → String → String
take zero s = []
take (suc n) [] = []
take (suc n) (c ∷ s) = c ∷ take n s

-- The rest of a replacement, `skip` characters into an occurrence of the old text.
unfoldable pub replace_from : ℕ → String → String → String → String
unfolding starts
replace_from skip old new [] = []
replace_from (suc skip) old new (c ∷ s) = replace_from skip old new s
replace_from zero old new (c ∷ s) =
    if starts old (c ∷ s)
    then new ++ replace_from (count old - 1) old new s
    else c ∷ replace_from 0 old new s

-- s.replace(old, new), where `old` is not empty
unfoldable pub replace : String → String → String → String
unfolding replace_from
replace s old new = replace_from 0 old new s

-- `t in s`, where `t` is not empty
unfoldable pub contains : String → String → Bool
unfolding starts
contains t [] = false
contains t (c ∷ s) = starts t (c ∷ s) || contains t s

pub take-drop : (n : ℕ) (s : String) → take n s ++ drop n s ≡ s
unfolding take drop
take-drop zero s = nil-append s
take-drop (suc n) [] = nil-append []
take-drop (suc n) (c ∷ s) = cons-append c (take n s) (drop n s) ∙ ap (λ t. c ∷ t) (take-drop n s)

pub take_all : (n : ℕ) (s : String) → count s ≤ n → take n s ≡ s
unfolding take
take_all zero [] h = refl
take_all zero (c ∷ s) h = (let e = length-cons c s in absurd (ground arith))
take_all (suc n) [] h = refl
take_all (suc n) (c ∷ s) h =
    ap (λ t. c ∷ t) (take_all n s (let e = length-cons c s in ground arith))

-- Text without an occurrence is not changed.
replace_none : (old new s : String) → contains old s ≡ false → replace s old new ≡ s
unfolding replace contains
replace_none old new [] h = refl
replace_none old new (c ∷ s) h = elim (Bool-cases (starts old (c ∷ s))) [
  | inl p ↦ absurd (ground arith)
  | inr p ↦ rw p (ap (λ t. c ∷ t) (replace_none old new s (ground arith)))
]

fffe : (b : String) → "FFFE" ++ b ≡ "F" ∷ ("F" ∷ ("F" ∷ ("E" ∷ b)))
fffe b =
    cons-append "F" "FFE" b
    ∙ ap (λ t. "F" ∷ t)
        (cons-append "F" "FE" b
          ∙ ap (λ t. "F" ∷ t)
              (cons-append "F" "E" b
                ∙ ap (λ t. "F" ∷ t) (cons-append "E" "" b ∙ ap (λ t. "E" ∷ t) (nil-append b))))

-- An occurrence cannot begin before the one that is put in and reach into it.
not_before :
    (c : Char) (a b : String)
    → starts "FFFE" (c ∷ a) ≡ false
    → starts "FFFE" (c ∷ (a ++ ("FFFE" ++ b))) ≡ false
unfolding starts
not_before c [] b h = rw (nil-append, fffe b) (ground arith)
not_before c (x ∷ []) b h = rw (cons-append, nil-append ("FFFE" ++ b), fffe b) (ground arith)
not_before c (x ∷ (y ∷ [])) b h =
    rw (cons-append x, cons-append y, nil-append ("FFFE" ++ b), fffe b) (ground arith)
not_before c (x ∷ (y ∷ (z ∷ a))) b h = rw (cons-append x, cons-append y, cons-append z) h

-- Where the text that is put in between two others is taken out again, they alone are left.
pub replace_inserted :
    (a b : String)
    → contains "FFFE" a ≡ false
    → contains "FFFE" b ≡ false
    → replace (a ++ ("FFFE" ++ b)) "FFFE" "" ≡ a ++ b
unfolding replace contains starts
replace_inserted [] b h k =
    ap (λ s. replace s "FFFE" "") (nil-append ("FFFE" ++ b) ∙ fffe b)
    ∙ ap (λ t. "" ++ t) (replace_none "FFFE" "" b k)
replace_inserted (c ∷ a) b h k = elim (Bool-cases (starts "FFFE" (c ∷ a))) [
  | inl p ↦ absurd (ground arith)
  | inr p ↦
      rw (cons-append c a ("FFFE" ++ b), not_before c a b p)
        (ap (λ t. c ∷ t) (replace_inserted a b (ground arith) k) ∙ sym (cons-append c a b))
]
