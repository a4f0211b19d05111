-- ===== src/Audit/Requests.antt =====
-- The middleware: which requests are recorded, and with what; and the explicit logger.
-- A request's body is a reader; the handlers behind are an argument, which gives the status, the
-- time taken and the context's values after it.
pub mod Recorded
use Prim.Native.String
use api_ops.Common.Int.{ℤ, pos, negsuc}
use api_ops.Common.{
  ℕ, zero, suc, ◌+◌, ◌-◌, ◌*◌, ◌/◌, ◌%◌, Bool, true, false, not, ◌&&◌, ◌||◌, Option, none, some,
  List, [], ◌∷◌, ◌++◌, ltb, leb, ◌==◌, if◌then◌else◌, codes, length, take,
}
use api_ops.Audit.Paths.{derive_action, resource_type, resource_id}
use api_ops.Audit.Numbers.{Value, text, int, int64, uint64, bool, other, two_63, format_extra}

abbrev pub body_max_bytes : ℕ
body_max_bytes = 1024

unfoldable pub same_text : List ℕ → List ℕ → Bool
same_text [] [] = true
same_text [] (d ∷ t) = false
same_text (c ∷ s) [] = false
same_text (c ∷ s) (d ∷ t) = c == d && same_text s t

-- `fails`: reading ends with an error behind these bytes.
pub record Body : Type 0 where
  pub bytes : List ℕ
  pub fails : Bool

pub record Request : Type 0 where
  pub method : List ℕ
  pub full_path : List ℕ
  pub path : List ℕ
  pub body : Option Body
  pub client_ip : List ℕ
  pub user_agent : List ℕ

abbrev pub Context : Type 0
Context = List (List ℕ × Value)

pub record Outcome : Type 0 where
  pub status : ℕ
  pub millis : ℕ
  pub values : Context

-- The row without its id and time, which the database sets.
pub record AuditLog : Type 0 where
  pub user_id : ℕ
  pub username : List ℕ
  pub action : List ℕ
  pub resource_type : List ℕ
  pub resource_id : List ℕ
  pub method : List ℕ
  pub path : List ℕ
  pub ip : List ℕ
  pub user_agent : List ℕ
  pub request_body : List ℕ
  pub response_status : ℕ
  pub duration_ms : ℕ

-- c.Get.
unfoldable pub get : Context → List ℕ → Option Value
unfolding same_text
get [] key = none
get ((k, v) ∷ more) key = if same_text k key then some v else get more key

-- uint64(n) on an int of 64 bits.
unfoldable pub to_uint64 : ℤ → ℕ
to_uint64 (pos n) = n
to_uint64 (negsuc n) = 2 * two_63 - 1 - n

number_of : Option Value → ℕ
unfolding to_uint64
number_of none = 0
number_of (some (text s)) = 0
number_of (some (int i)) = to_uint64 i
number_of (some (int64 i)) = 0
number_of (some (uint64 n)) = n
number_of (some (bool b)) = 0
number_of (some other) = 0

unfoldable pub uint64_from : Context → List ℕ → ℕ
unfolding number_of get
uint64_from c key = number_of (get c key)

unfoldable pub pick_uint64 : Context → List ℕ → List ℕ → ℕ
unfolding uint64_from
pick_uint64 c primary secondary =
    if uint64_from c primary == 0 then uint64_from c secondary else uint64_from c primary

text_of : Option Value → List ℕ
text_of none = []
text_of (some (text s)) = s
text_of (some (int i)) = []
text_of (some (int64 i)) = []
text_of (some (uint64 n)) = []
text_of (some (bool b)) = []
text_of (some other) = []

unfoldable pub string_from : Context → List ℕ → List ℕ
unfolding text_of get
string_from c key = text_of (get c key)

unfoldable pub pick_string : Context → List ℕ → List ℕ → List ℕ
unfolding string_from
pick_string c primary secondary =
    if same_text (string_from c primary) [] then string_from c secondary else string_from c primary

-- strconv.Itoa of what is not negative, with fuel above the number.
unfoldable pub decimal : ℕ → ℕ → List ℕ
decimal zero n = []
decimal (suc fuel) n =
    let front = decimal fuel (n / 10) in
    if ltb n 10 then (b'0' + n) ∷ [] else front ++ (b'0' + n % 10) ∷ []

unfoldable pub truncate_body : List ℕ → ℕ → List ℕ
truncate_body b max =
    if leb (length b) max
    then b
    else take max b
      ++ (codes "...(truncated "
          ++ (decimal (suc (length b - max)) (length b - max) ++ codes " bytes)"))

unfoldable pub is_write : List ℕ → Bool
unfolding same_text
is_write m =
    same_text m (codes "POST")
    || same_text m (codes "PUT")
    || same_text m (codes "DELETE")
    || same_text m (codes "PATCH")

-- io.ReadAll with its error dropped.
unfoldable pub read_all : Option Body → List ℕ
read_all none = []
read_all (some b) = b.bytes

-- The body that is put back for the handlers.
unfoldable pub put_back : Option Body → Option Body
put_back none = none
put_back (some b) = some (record { bytes = b.bytes; fails = false })

unfoldable pub entry : Request → List ℕ → Outcome → AuditLog
entry r body o = record {
  user_id = pick_uint64 o.values (codes "auth_user_id") (codes "user_id");
  username = pick_string o.values (codes "auth_username") (codes "username");
  action = derive_action r.method r.full_path;
  resource_type = resource_type r.path;
  resource_id = resource_id r.path;
  method = r.method;
  path = r.path;
  ip = r.client_ip;
  user_agent = r.user_agent;
  request_body = truncate_body body body_max_bytes;
  response_status = o.status;
  duration_ms = o.millis;
}

-- What the handlers answer, and the row that a goroutine is started to write.
unfoldable pub middleware : (Request → Outcome) → Request → Outcome × Option AuditLog
middleware next r =
    if not (is_write r.method)
    then (next r, none)
    else let o = next (record r { body = put_back r.body }) in
      if leb 400 o.status then (o, none) else (o, some (entry r (read_all r.body) o))

-- writeAudit: the table is absent where dal.OPS is nil, and the insertion may fail.
unfoldable pub write_audit : Bool → AuditLog → Option (List AuditLog) → Option (List AuditLog)
write_audit creates e none = none
write_audit creates e (some rows) = if creates then some (rows ++ e ∷ []) else some rows

-- Where the middleware made an entry, its goroutine writes it.
unfoldable pub write_entry :
    Bool → Option AuditLog → Option (List AuditLog) → Option (List AuditLog)
unfolding write_audit
write_entry creates none table = table
write_entry creates (some e) table = write_audit creates e table

-- A request and, behind it, the goroutine: the answer and the table.
unfoldable pub audited :
    (Request → Outcome) → Bool → Request → Option (List AuditLog) → Outcome × Option (List AuditLog)
unfolding middleware write_entry
audited next creates r table =
    ((middleware next r).0, write_entry creates (middleware next r).1 table)

-- Logger.Log: the row of an explicit call; nothing where printing the extra values panics.
unfoldable pub log_entry :
    Request → Context → List ℕ → List ℕ → List ℕ → List ℕ → List (List ℕ × Value) → Option AuditLog
unfolding pick_uint64 pick_string format_extra
log_entry r values action rtype rid summary extra = elim (format_extra extra) [
  | none ↦ none
  | some e ↦ some (record {
    user_id = pick_uint64 values (codes "auth_user_id") (codes "user_id");
    username = pick_string values (codes "auth_username") (codes "username");
    action = action;
    resource_type = rtype;
    resource_id = rid;
    method = r.method;
    path = r.path;
    ip = r.client_ip;
    user_agent = r.user_agent;
    request_body = summary ++ e;
    response_status = 0;
    duration_ms = 0;
  })
]
