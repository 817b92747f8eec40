-- ===== src/Js/Number/Decimal.antt =====
-- Decimal texts: reading back what `String(n)` and `padStart` write, and why no two numbers are
-- written alike.
pub mod Ends
use Prim.Native.String.{[], ◌∷◌, len}
use text.Mathlib.TextLemmas.{nil-append, cons-append, append_assoc}
use multi_job.Prelude.{
  ℕ, zero, suc, ◌+◌, ◌-◌, ◌*◌, ◌/◌, ◌%◌, ◌≤◌, ◌<◌, Char, code, String, Bool, nat_eq, ltb,
  if◌then◌else◌, ◌⧺◌, ◌≡◌, refl, sym, ap, ◌∙◌, arith, Bool-cases, inl, inr,
}
use multi_job.Js.Text.Trimming.{NoneOf}
use multi_job.Js.Number.{digit, show_within, show}

-- The number that decimal digits stand for, behind those that have been read.
pub read : ℕ → String → ℕ
read n [] = n
read n (c ∷ s) = read (10 * n + (code c - 48)) s

read-append : (n : ℕ) (s t : String) → read n (s ⧺ t) ≡ read (read n s) t
unfolding read
read-append n [] t = rw nil-append
read-append n (c ∷ s) t = rw cons-append (read-append (10 * n + (code c - 48)) s t)

read-digit : (n d : ℕ) → d < 10 → read n (digit d) ≡ 10 * n + d
unfolding read digit
read-digit n zero h = refl
read-digit n (suc zero) h = refl
read-digit n (suc (suc zero)) h = refl
read-digit n (suc (suc (suc zero))) h = refl
read-digit n (suc (suc (suc (suc zero)))) h = refl
read-digit n (suc (suc (suc (suc (suc zero))))) h = refl
read-digit n (suc (suc (suc (suc (suc (suc zero)))))) h = refl
read-digit n (suc (suc (suc (suc (suc (suc (suc zero))))))) h = refl
read-digit n (suc (suc (suc (suc (suc (suc (suc (suc zero)))))))) h = refl
read-digit n (suc (suc (suc (suc (suc (suc (suc (suc (suc zero))))))))) h = refl
read-digit n (suc (suc (suc (suc (suc (suc (suc (suc (suc (suc d)))))))))) h = absurd (omega arith)

read-show_within : (f n : ℕ) → n < f → read 0 (show_within f n) ≡ n
unfolding show_within
read-show_within zero n h = elim h [ ]
read-show_within (suc f) n h = elim (Bool-cases (ltb n 10)) [
  | inl e ↦ rw e (omega (arith, read-digit 0 n (ground (arith, e))))
  | inr e ↦
      let small : n % 10 < 10 = omega arith in
      let less : n / 10 < f = ground (arith, e) in
      rw e (
        omega (
          arith,
          read-append 0 (show_within f (n / 10)) (digit (n % 10)),
          read-digit (read 0 (show_within f (n / 10))) (n % 10) small,
          read-show_within f (n / 10) less,
        ))
]

pub read-show : (n : ℕ) → read 0 (show n) ≡ n
unfolding show
read-show n = read-show_within (suc n) n (omega arith)

pub show_inj : (m n : ℕ) → show m ≡ show n → m ≡ n
show_inj m n e = sym (read-show m) ∙ ap (read 0) e ∙ read-show n

zeros : ℕ → String
zeros zero = ""
zeros (suc n) = "0" ⧺ zeros n

-- `s.padStart(n, "0")`
unfoldable pub pad_start : ℕ → String → String
unfolding zeros
pad_start n s = zeros (n - len s) ⧺ s

read-zeros : (k : ℕ) (s : String) → read 0 (zeros k ⧺ s) ≡ read 0 s
unfolding read zeros
read-zeros zero s = rw nil-append
read-zeros (suc k) s =
    ap (read 0) (append_assoc "0" (zeros k) s) ∙ read-append 0 "0" (zeros k ⧺ s) ∙ read-zeros k s

-- Padded, too, no two numbers are written alike.
pub pad_start-show_inj : (k m n : ℕ) → pad_start k (show m) ≡ pad_start k (show n) → m ≡ n
unfolding pad_start
pad_start-show_inj k m n e =
    sym (read-zeros (k - len (show m)) (show m) ∙ read-show m)
    ∙ ap (read 0) e
    ∙ read-zeros (k - len (show n)) (show n)
    ∙ read-show n

-- A common front can be taken off.
pub append_left_cancel : (p s t : String) → p ⧺ s ≡ p ⧺ t → s ≡ t
append_left_cancel [] s t e = sym (nil-append s) ∙ e ∙ nil-append t
append_left_cancel (c ∷ p) s t e =
    append_left_cancel p s t (cc (e, cons-append c p s, cons-append c p t))

pad_start_test : pad_start 3 (show 42) ≡ "042"
unfolding pad_start show
pad_start_test = refl

-- `s.split(" ")` separates here.
abbrev pub is_blank : Char → Bool
is_blank c = nat_eq (code c) 32

NoneOf-digit : (d : ℕ) → d < 10 → NoneOf is_blank (digit d)
unfolding digit
NoneOf-digit zero h = (refl, tt)
NoneOf-digit (suc zero) h = (refl, tt)
NoneOf-digit (suc (suc zero)) h = (refl, tt)
NoneOf-digit (suc (suc (suc zero))) h = (refl, tt)
NoneOf-digit (suc (suc (suc (suc zero)))) h = (refl, tt)
NoneOf-digit (suc (suc (suc (suc (suc zero))))) h = (refl, tt)
NoneOf-digit (suc (suc (suc (suc (suc (suc zero)))))) h = (refl, tt)
NoneOf-digit (suc (suc (suc (suc (suc (suc (suc zero))))))) h = (refl, tt)
NoneOf-digit (suc (suc (suc (suc (suc (suc (suc (suc zero)))))))) h = (refl, tt)
NoneOf-digit (suc (suc (suc (suc (suc (suc (suc (suc (suc zero))))))))) h = (refl, tt)
NoneOf-digit (suc (suc (suc (suc (suc (suc (suc (suc (suc (suc d)))))))))) h = absurd (omega arith)

NoneOf-append : (p : Char → Bool) (s t : String) → NoneOf p s → NoneOf p t → NoneOf p (s ⧺ t)
NoneOf-append p [] t h k = rw nil-append k
NoneOf-append p (c ∷ s) t (h, hs) k = rw cons-append (h, NoneOf-append p s t hs k)

NoneOf-show_within : (f n : ℕ) → n < f → NoneOf is_blank (show_within f n)
unfolding show_within
NoneOf-show_within zero n h = elim h [ ]
NoneOf-show_within (suc f) n h = elim (Bool-cases (ltb n 10)) [
  | inl e ↦ rw e (NoneOf-digit n (ground (arith, e)))
  | inr e ↦
      let less : n / 10 < f = ground (arith, e) in
      rw e (
        NoneOf-append is_blank (show_within f (n / 10)) (digit (n % 10))
          (NoneOf-show_within f (n / 10) less) (NoneOf-digit (n % 10) (omega arith)))
]

pub NoneOf-show : (n : ℕ) → NoneOf is_blank (show n)
unfolding show
NoneOf-show n = NoneOf-show_within (suc n) n (omega arith)
