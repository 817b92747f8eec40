-- ===== src/Skills/Mutations/Outcome.antt =====
-- What the buttons of the skills page report, whatever the server answers.
use multi_job.Prelude.{String, List, [], ◌∷◌, ◌++◌, Option, none, ◌≡◌, ◌≢◌, ◌⊎◌}
use multi_job.Js.Text.{trim}
use multi_job.Js.Json.{Json}
use multi_job.Skills.{SkillSpecRequest}

-- The requests that a server has got.
abbrev pub Log : Type 0
Log = List (String × SkillSpecRequest)

-- A server that keeps a log and answers as the first argument says.
abbrev pub logged :
    {A : Type 0}
    → (String → SkillSpecRequest → Option A)
    → String
    → SkillSpecRequest
    → Log
    → Option A × Log
logged answer id request log = (answer id request, log ++ (id, request) ∷ [])

-- The cell of the inputs is a blank or is read.
abbrev pub IsReadable : (String → Option Json) → String → Type 0
IsReadable parse cell = (trim cell ≡ "") ⊎ (parse cell ≢ none)
