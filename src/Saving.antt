-- ===== src/Saving.antt =====
-- The loop of the handlers that save several things one after the other: siapkanTigaJalurIntiSekaligus
-- and buatPaketSaas of ui/src/app/automation/page.tsx, simpanSemuaAkunInstagram and
-- generateJobHarianInstagram of ui/src/app/settings/page.tsx. The server is a state with an operation
-- whose result is `none` where the call's is `undefined`; `name` is what the handler lists for a
-- payload that could not be saved.
pub mod Laws
use multi_job.Prelude.{ℕ, ◌+◌, String, List, [], ◌∷◌, ◌++◌, Option, none, some}

module _ {P S Job : Type 0} (name : P → String) (upsert : P → S → Option Job × S) where
  -- The loop: the number of successes, the names of the failures, and the server's state.
  pub simpan_semua : ℕ → List String → List P → S → ℕ × List String × S
  simpan_semua berhasil gagal [] s = (berhasil, gagal, s)
  simpan_semua berhasil gagal (payload ∷ payloads) s =
      let (hasil, s') = upsert payload s in
      elim hasil [
        | some job ↦ simpan_semua (berhasil + 1) gagal payloads s'
        | none ↦ simpan_semua berhasil (gagal ++ name payload ∷ []) payloads s'
      ]
