-- ===== src/Api/Skills.antt =====
-- The calls for skills of ui/src/lib/api.ts. No tags and an empty list of tags are one to the code.
-- The body of `sync_skills` is the list of the object `{ skills }`.
use multi_job.Prelude.{Bool, true, false, String, ◌⧺◌, List, [], ◌∷◌, Option, none, some}
use multi_job.Js.Text.{join}
use multi_job.Js.Uri.{encode_uri_component}
use multi_job.Api.Session.{Browser}
use multi_job.Api.Headers.{Config}
use multi_job.Api.Http.{Call, post, put, delete, get_json, send, guarded}
use multi_job.Api.Query.{Pairs, with_query}

abbrev tags_query : List String → Pairs
tags_query [] = []
tags_query (tag ∷ tags) = ("tags", join "," (tag ∷ tags)) ∷ []

module _ (to_lower_case : String → String) (cfg : Config) (browser : Browser) where
  unfoldable upsert_skill : {B T : Type 0} → (skill_id : String) (payload : B) → Call B T (Option T)
  upsert_skill skill_id payload = record {
    request =
        send to_lower_case cfg browser ("/skills/" ⧺ encode_uri_component skill_id) put
          (some payload);
    finish = guarded some ("Gagal menyimpan skill " ⧺ skill_id) none;
  }

  unfoldable delete_skill : {B T : Type 0} → (skill_id : String) → Call B T Bool
  delete_skill skill_id = record {
    request =
        send to_lower_case cfg browser ("/skills/" ⧺ encode_uri_component skill_id) delete none;
    finish = guarded (λ t. true) ("Gagal menghapus skill " ⧺ skill_id) false;
  }

  unfoldable sync_skills : {B T : Type 0} → (skills : List B) → Call (List B) T (Option T)
  sync_skills skills = record {
    request = send to_lower_case cfg browser "/skills/sync" post (some skills);
    finish = guarded some "Gagal sinkron skill" none;
  }

  unfoldable get_skills : {B T : Type 0} → (tags : List String) → Call B (List T) (List T)
  get_skills tags = record {
    request = get_json to_lower_case cfg browser (with_query "/skills" (tags_query tags));
    finish = guarded (λ t. t) "Gagal memuat skill" [];
  }
