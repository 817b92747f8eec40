-- ===== src/Automation/Lanes/Order.antt =====
-- The sort of the lanes: its order, and what it leaves as it is.
use multi_job.Prelude.{
  ℕ, ◌+◌, ◌≤◌, Bool, true, false, List, [], ◌∷◌, All, count_of, All-map, ◌≡◌, refl, arith,
  Bool-cases, inl, inr,
}
use multi_job.Automation.Lanes.{RingkasanJalur, sesudah, sisipkan, urutkan}

-- `a` may stand before `b`: it has more active jobs, or as many and no fewer jobs.
abbrev pub MayPrecede : RingkasanJalur → RingkasanJalur → Type 0
MayPrecede a b = (b.aktif ≤ a.aktif) × (b.aktif ≡ a.aktif → b.total_job ≤ a.total_job)

-- Each row may stand before all later ones.
abbrev pub IsOrdered : List RingkasanJalur → Type 0
IsOrdered [] = Unit
IsOrdered (a ∷ as') = All (MayPrecede a) as' × IsOrdered as'

sesudah-false : (a b : RingkasanJalur) → sesudah a b ≡ false → MayPrecede a b
unfolding sesudah
sesudah-false a b h = ground arith

sesudah-true : (a b : RingkasanJalur) → sesudah a b ≡ true → MayPrecede b a
unfolding sesudah
sesudah-true a b h = ground arith

MayPrecede-trans : (a b c : RingkasanJalur) → MayPrecede a b → MayPrecede b c → MayPrecede a c
MayPrecede-trans a b c (h, k) (h', k') = (omega arith, λ e. ground arith)

All-sisipkan :
    (P : RingkasanJalur → Type 0) (a : RingkasanJalur) (bs : List RingkasanJalur)
    → P a
    → All P bs
    → All P (sisipkan a bs)
unfolding sisipkan
All-sisipkan P a [] p h = (p, tt)
All-sisipkan P a (b ∷ bs) p (h, hs) = elim (Bool-cases (sesudah a b)) [
  | inl e ↦ rw e (h, All-sisipkan P a bs p hs)
  | inr e ↦ rw e (p, (h, hs))
]

sisipkan-IsOrdered :
    (a : RingkasanJalur) (bs : List RingkasanJalur) → IsOrdered bs → IsOrdered (sisipkan a bs)
unfolding sisipkan
sisipkan-IsOrdered a [] h = (tt, tt)
sisipkan-IsOrdered a (b ∷ bs) (h, hs) = elim (Bool-cases (sesudah a b)) [
  | inl e ↦
      rw e (All-sisipkan (MayPrecede b) a bs (sesudah-true a b e) h, sisipkan-IsOrdered a bs hs)
  | inr e ↦
      let first = sesudah-false a b e in
      rw e ((first, All-map (λ c k. MayPrecede-trans a b c first k) bs h), (h, hs))
]

pub urutkan-IsOrdered : (as' : List RingkasanJalur) → IsOrdered (urutkan as')
unfolding urutkan
urutkan-IsOrdered [] = tt
urutkan-IsOrdered (a ∷ as') = sisipkan-IsOrdered a (urutkan as') (urutkan-IsOrdered as')

pub All-urutkan :
    (P : RingkasanJalur → Type 0) (as' : List RingkasanJalur) → All P as' → All P (urutkan as')
unfolding urutkan
All-urutkan P [] h = tt
All-urutkan P (a ∷ as') (p, h) = All-sisipkan P a (urutkan as') p (All-urutkan P as' h)

sisipkan-count :
    (p : RingkasanJalur → Bool) (a : RingkasanJalur) (bs : List RingkasanJalur)
    → count_of p (sisipkan a bs) ≡ count_of p (a ∷ bs)
unfolding sisipkan
sisipkan-count p a [] = refl
sisipkan-count p a (b ∷ bs) = ground (arith, sisipkan-count p a bs)

-- The sort leaves each count as it is.
pub count_of-urutkan :
    (p : RingkasanJalur → Bool) (as' : List RingkasanJalur)
    → count_of p (urutkan as') ≡ count_of p as'
unfolding urutkan
count_of-urutkan p [] = refl
count_of-urutkan p (a ∷ as') =
    omega (arith, sisipkan-count p a (urutkan as'), count_of-urutkan p as')

-- The jobs of all rows.
unfoldable pub jumlah_job : List RingkasanJalur → ℕ
jumlah_job [] = 0
jumlah_job (a ∷ as') = a.total_job + jumlah_job as'

sisipkan-jumlah_job :
    (a : RingkasanJalur) (bs : List RingkasanJalur)
    → jumlah_job (sisipkan a bs) ≡ a.total_job + jumlah_job bs
unfolding sisipkan jumlah_job
sisipkan-jumlah_job a [] = refl
sisipkan-jumlah_job a (b ∷ bs) = ground (arith, sisipkan-jumlah_job a bs)

pub jumlah_job-urutkan : (as' : List RingkasanJalur) → jumlah_job (urutkan as') ≡ jumlah_job as'
unfolding urutkan jumlah_job
jumlah_job-urutkan [] = refl
jumlah_job-urutkan (a ∷ as') =
    omega (arith, sisipkan-jumlah_job a (urutkan as'), jumlah_job-urutkan as')
