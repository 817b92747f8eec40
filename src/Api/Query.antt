-- ===== src/Api/Query.antt =====
-- The query strings of ui/src/lib/api.ts: the parameters of each list call as the pairs that are
-- appended to a `URLSearchParams`, in the order of the code.
use multi_job.Prelude.{
  zero, suc, ◌+◌, Bool, String, ◌⧺◌, List, [], ◌∷◌, ◌++◌, map, Option, none, some, if◌then◌else◌,
}
use multi_job.Js.Text.{truthy, join}
use multi_job.Js.Number.{JsNumber, nan, natural, negative, show}
use multi_job.Js.Uri.{encode_form}

abbrev pub Pairs : Type 0
Pairs = List (String × String)

-- `if (value) queryParams.append(key, value)` for a text that may be missing.
abbrev pub append_text : String → Option String → Pairs
append_text key none = []
append_text key (some value) = if truthy value then (key, value) ∷ [] else []

-- `if (value) queryParams.append(key, value.toString())` for a number: NaN and 0 are falsy.
abbrev pub append_limit : String → Option JsNumber → Pairs
append_limit key none = []
append_limit key (some nan) = []
append_limit key (some (natural zero)) = []
append_limit key (some (natural (suc n))) = (key, show (suc n)) ∷ []
append_limit key (some (negative n)) = (key, "-" ⧺ show (n + 1)) ∷ []

-- `if (typeof value === "number" && value >= 0)`
abbrev pub append_offset : String → Option JsNumber → Pairs
append_offset key (some (natural n)) = (key, show n) ∷ []
append_offset key _ = []

-- `if (typeof value === "boolean")`
abbrev pub append_flag : String → Option Bool → Pairs
append_flag key none = []
append_flag key (some b) = (key, (if b then "true" else "false")) ∷ []

pub record JobsParams : Type 0 where
  pub search : Option String
  pub enabled : Option Bool
  pub limit : Option JsNumber
  pub offset : Option JsNumber

unfoldable pub jobs_query : JobsParams → Pairs
jobs_query p =
    append_text "search" p.search
    ++ append_flag "enabled" p.enabled
    ++ append_limit "limit" p.limit
    ++ append_offset "offset" p.offset

pub record RunsParams : Type 0 where
  pub job_id : Option String
  pub limit : Option JsNumber
  pub status : Option String
  pub search : Option String
  pub offset : Option JsNumber

unfoldable pub runs_query : RunsParams → Pairs
runs_query p =
    append_text "job_id" p.job_id
    ++ append_limit "limit" p.limit
    ++ append_text "status" p.status
    ++ append_text "search" p.search
    ++ append_offset "offset" p.offset

pub record ExperimentsParams : Type 0 where
  pub enabled : Option Bool
  pub search : Option String
  pub limit : Option JsNumber

unfoldable pub experiments_query : ExperimentsParams → Pairs
experiments_query p =
    append_flag "enabled" p.enabled ++ append_text "search" p.search ++ append_limit "limit" p.limit

pub record EventsParams : Type 0 where
  pub since : Option String
  pub limit : Option JsNumber
  pub offset : Option JsNumber
  pub event_type : Option String
  pub search : Option String

unfoldable pub events_query : EventsParams → Pairs
events_query p =
    append_text "since" p.since
    ++ append_limit "limit" p.limit
    ++ append_offset "offset" p.offset
    ++ append_text "event_type" p.event_type
    ++ append_text "search" p.search

pub record AuditParams : Type 0 where
  pub since : Option String
  pub limit : Option JsNumber
  pub method : Option String
  pub outcome : Option String
  pub actor_role : Option String
  pub path_contains : Option String

unfoldable pub audit_query : AuditParams → Pairs
audit_query p =
    append_text "since" p.since
    ++ append_limit "limit" p.limit
    ++ append_text "method" p.method
    ++ append_text "outcome" p.outcome
    ++ append_text "actor_role" p.actor_role
    ++ append_text "path_contains" p.path_contains

pub record ApprovalsParams : Type 0 where
  pub status : Option String
  pub limit : Option JsNumber

unfoldable pub approvals_query : ApprovalsParams → Pairs
approvals_query p = append_text "status" p.status ++ append_limit "limit" p.limit

-- `queryParams.toString()`
unfoldable pub to_query_string : Pairs → String
to_query_string pairs = join "&" (map (λ p. encode_form p.0 ⧺ "=" ⧺ encode_form p.1) pairs)

-- `queryParams.size ? "?" + queryParams.toString() : ""` behind a path.
unfoldable pub with_query : String → Pairs → String
with_query path [] = path
with_query path (p ∷ pairs) = path ⧺ "?" ⧺ to_query_string (p ∷ pairs)
