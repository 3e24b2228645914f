-- ===== src/Quota/Gateway.antt =====
-- src/tryops/quota.py: `check_and_record_quota`, which asks the quota gateway first. The HTTP call is
-- a parameter: `unreachable` stands for each exception that `_check_gateway_quota` catches.
use Prim.Native.Char.{Char, code}
use try_ops_try_on_mlops.Base.{
  String, string_eq, nat_eq, Bool, true, false, ◌≡◌, ◌≢◌, refl, Option, none, some, if◌then◌else◌,
  ◌==◌,
}
use try_ops_try_on_mlops.Base.Json.{
  Json, Fields, null, bool, obj, get, get_or, setdefault, is_str, truthy, get-setdefault_self,
  get-setdefault_ne,
}
use try_ops_try_on_mlops.Base.Text.{strip, rstrip_by}
use try_ops_try_on_mlops.Quota.Ledger.{Ledger, QuotaRequest, Answer, check_and_record}

pub data Reply : Type 0 where
  unreachable : Reply
  parsed : Json → Reply

abbrev pub decision_schema : String
decision_schema = "tryops.quota_decision.v1"

abbrev pub is_slash : Char → Bool
is_slash c = code c == b'/'

-- `isinstance(decision, dict) and decision.get("schema_version") == ...`
abbrev pub accept_reply : Reply → Option Fields
accept_reply (parsed (obj d)) =
    if is_str decision_schema (get_or "schema_version" null d) then some d else none
accept_reply _ = none

-- `_check_gateway_quota`, with the value of `TRYOPS_QUOTA_GATEWAY_URL`
unfoldable pub check_gateway_quota : String → Reply → Option Fields
unfolding strip rstrip_by
check_gateway_quota url reply =
    if rstrip_by is_slash (strip url) == "" then none else accept_reply reply

pub data QuotaAnswer : Type 0 where
  gateway : Fields → QuotaAnswer
  local : Answer → QuotaAnswer

module _ (sha256 : String → String) where
  abbrev ask_ledger : Ledger → QuotaRequest → String → Bool → QuotaAnswer × Ledger
  unfolding check_and_record
  ask_ledger l r period recording =
      let (answer, l') = check_and_record sha256 l r period recording in (local answer, l')

  unfoldable pub check_and_record_quota :
      Ledger → QuotaRequest → String → Bool → String → Reply → QuotaAnswer × Ledger
  unfolding check_gateway_quota ask_ledger
  check_and_record_quota l r period recording url reply =
      if recording
      then elim (check_gateway_quota url reply) [
        | some d ↦ (gateway (setdefault "recorded" (bool (truthy (get_or "allowed" null d))) d), l)
        | none ↦ ask_ledger l r period recording
      ]
      else ask_ledger l r period recording

  -- A recorded check that the gateway answers leaves the ledger alone and returns the gateway's
  -- decision, with `recorded` set to whether it allows the request if the decision does not say.
  gateway_decides :
      (l : Ledger) (r : QuotaRequest) (period url : String) (reply : Reply) (d : Fields)
      → check_gateway_quota url reply ≡ some d
      → (d' : Fields) × (check_and_record_quota l r period true url reply ≡ (gateway d', l))
        × (get "recorded" d' ≡ some (get_or "recorded" (bool (truthy (get_or "allowed" null d))) d))
        × ((k : String) → "recorded" ≢ k → get k d' ≡ get k d)
  unfolding check_and_record_quota
  gateway_decides l r period url reply d answered =
      let v : Json = bool (truthy (get_or "allowed" null d)) in
      (
        setdefault "recorded" v d,
        rw (answered, check_and_record_quota),
        get-setdefault_self "recorded" v d,
        λ k ne. get-setdefault_ne "recorded" k v d ne,
      )

  -- A check that is not to be recorded, or that the gateway does not answer, is the ledger's.
  pub ledger_decides :
      (l : Ledger) (r : QuotaRequest) (period url : String) (recording : Bool) (reply : Reply)
      → (recording ≡ true → check_gateway_quota url reply ≡ none)
      → check_and_record_quota l r period recording url reply
        ≡ (let (answer, l') = check_and_record sha256 l r period recording in (local answer, l'))
  unfolding check_and_record_quota
  ledger_decides l r period url true reply silent = rw (silent refl, check_and_record_quota)
  ledger_decides l r period url false reply silent = refl
