-- ===== src/Audit/Tests.antt =====
-- Requests that are recorded, and printed numbers: runs and witnesses.
use api_ops.Common.Int.{negsuc}
use api_ops.Common.{
  ℕ, ◌-◌, ◌≤◌, ◌<◌, ◌≡◌, ◌⊎◌, refl, true, false, some, List, [], ◌∷◌, arith, codes, length,
}
use api_ops.Audit.Paths.{derive_action, resource_type, resource_id}
use api_ops.Audit.Numbers.{two_63, itoa, put_digits, end_text, uint64, format_extra, text, bool}
use api_ops.Audit.Numbers.RoundTrip.{int_of, itoa_reads_back}
use api_ops.Audit.Requests.{
  Request, Outcome, AuditLog, audited, pick_uint64, truncate_body, decimal,
}
use api_ops.Audit.Requests.Recorded.{Writes, Tells, audited_exact}

abbrev ack : List ℕ
ack = codes "/api/monitor/alerts/42/ack"

abbrev acknowledge : Request
acknowledge = record {
  method = codes "POST";
  full_path = codes "/api/monitor/alerts/:id/ack";
  path = ack;
  body = some (record { bytes = codes "{}"; fails = false });
  client_ip = codes "10.0.0.1";
  user_agent = codes "curl";
}

abbrev accept : Request → Outcome
accept r = record { status = 200; millis = 3; values = (codes "user_id", uint64 7) ∷ [] }

action_of_ack :
    derive_action (codes "POST") (codes "/api/monitor/alerts/:id/ack")
    ≡ codes "post monitor.alerts.:id.ack"
unfolding derive_action
action_of_ack = refl

id_of_ack : resource_id ack ≡ codes "42"
unfolding resource_id
id_of_ack = refl

type_of_ack : resource_type ack ≡ codes "monitor"
unfolding resource_type
type_of_ack = refl

fallback : pick_uint64 (accept acknowledge).values (codes "auth_user_id") (codes "user_id") ≡ 7
unfolding pick_uint64
fallback = refl

cut_body : truncate_body (codes "abcdef") 4 ≡ codes "abcd...(truncated 2 bytes)"
unfolding truncate_body decimal
cut_body = refl

prints_negative : itoa (negsuc 1233) ≡ some (codes "-1234")
unfolding itoa put_digits end_text
prints_negative = refl

-- -2 ^ 63 is printed without digits.
prints_least : itoa (negsuc (two_63 - 1)) ≡ some (codes "-")
unfolding itoa put_digits end_text
prints_least = refl

extra :
    format_extra ((codes "a", text (codes "x")) ∷ (codes "ok", bool true) ∷ [])
    ≡ some (codes " | extra: a=x, ok=true, ")
unfolding format_extra
extra = refl

itoa_reads_back_example :
    (s : List ℕ) × (itoa (negsuc 41) ≡ some s) × (int_of s ≡ negsuc 41) × (length s ≤ 20)
itoa_reads_back_example = itoa_reads_back (negsuc 41) (omega arith) (omega arith)

audited_exact_example :
    let a = audited accept true acknowledge (some []) in
    ((Writes acknowledge.method × (a.0.status < 400) × (true ≡ true))
      × ((e : AuditLog) × (a.1 ≡ some (e ∷ [])) × Tells acknowledge a.0 e))
    ⊎ (¬ (Writes acknowledge.method × (a.0.status < 400) × (true ≡ true)) × (a.1 ≡ some []))
audited_exact_example = audited_exact accept true acknowledge []
