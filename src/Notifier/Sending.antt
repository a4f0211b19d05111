-- ===== src/Notifier/Sending.antt =====
-- The notifier with its configuration, the post, and the entry SendForAlert.
use Prim.Native.String
use api_ops.Common.{
  ℕ, suc, ◌+◌, Bool, true, false, not, ◌&&◌, Option, none, some, List, [], ◌∷◌, ◌++◌, String,
  String_discrete, ite, leb, ltb, ◌==◌, if◌then◌else◌,
}
use api_ops.Notifier.Cards.{Card, Texts, build_alert_card}

pub record FeishuConfig : Type 0 where
  pub url : String
  pub secret : String

-- The time of a post and what becomes of it, by the number of the attempt; `sign` is the escaped Base64
-- of the HMAC of a text under a key, `decimal` prints a time, `decode` is what json.Unmarshal sets.
pub data Reply : Type 0 where
  answered : ℕ → Reply
  broken : Reply

pub record Outside : Type 0 where
  pub texts : Texts
  pub decode : String → FeishuConfig
  pub marshal : Card → Option String
  pub sign : String → String → String
  pub decimal : ℕ → String
  pub reply : ℕ → Reply
  pub clock : ℕ → ℕ

pub record Notifier : Type 0 where
  pub cfg : Option FeishuConfig
  pub cfg_key : String
  pub cfg_ts : ℕ
  pub cfg_ttl : ℕ
  pub channel : String

unfoldable pub new : Notifier
new = record {
  cfg = none;
  cfg_key = "feishu_webhook_alert";
  cfg_ts = 0;
  cfg_ttl = 30;
  channel = "feishu";
}

unfoldable pub with_key : String → Notifier → Notifier
with_key key n = record n { cfg_key = key }

-- `row` is the value in system_config, nothing where it cannot be read; `creates` says whether an action
-- can be written.
pub record Calls : Type 0 where
  pub has_ops : Bool
  pub row : Option String
  pub redis_answers : Bool
  pub creates : Bool

-- A configuration counts where it has a URL.
unfoldable pub usable : FeishuConfig → Option FeishuConfig
usable c = ite (String_discrete c.url "") none (some c)

unfoldable pub usable_of : Option FeishuConfig → Option FeishuConfig
usable_of none = none
usable_of (some c) = usable c

unfoldable pub parse_config : Outside → String → FeishuConfig
parse_config out value =
    ite (String_discrete value "") (record { url = ""; secret = "" }) (out.decode value)

-- The configuration from the table; the cached one, if any, where it cannot be read.
refresh : Outside → Option String → ℕ → Notifier → Option FeishuConfig × Notifier
refresh out none now n = (usable_of n.cfg, n)
refresh out (some value) now n =
    let c = parse_config out value in (usable c, record n { cfg = some c; cfg_ts = now })

load_into : Option FeishuConfig → Outside → Calls → ℕ → Notifier → Option FeishuConfig × Notifier
unfolding refresh
load_into none out calls now n = if calls.has_ops then refresh out calls.row now n else (none, n)
load_into (some c) out calls now n =
    if ltb now (n.cfg_ts + n.cfg_ttl)
    then (usable c, n)
    else (if calls.has_ops then refresh out calls.row now n else (none, n))

unfoldable pub load_config : Outside → Calls → ℕ → Notifier → Option FeishuConfig × Notifier
unfolding load_into
load_config out calls now n = load_into n.cfg out calls now n

unfoldable pub reload : Notifier → Notifier
reload n = record n { cfg = none; cfg_ts = 0 }

unfoldable pub sign_feishu : Outside → String → String → String
sign_feishu out secret ts = out.sign secret (String.◌++◌ ts (String.◌++◌ "\n" secret))

unfoldable pub full_url : Outside → FeishuConfig → ℕ → String
full_url out c now =
    let ts = out.decimal now in
    ite (String_discrete c.secret "") c.url (
      String.◌++◌ c.url (
        String.◌++◌ "&timestamp="
          (String.◌++◌ ts (String.◌++◌ "&sign=" (sign_feishu out c.secret ts)))))

pub data Outcome : Type 0 where
  delivered : Outcome
  refused : ℕ → Outcome
  exhausted : Outcome

-- What the attempts do: the URLs and bodies posted, the seconds slept, and how they end.
pub record Attempts : Type 0 where
  pub posts : List (String × String)
  pub slept : ℕ
  pub outcome : Outcome

abbrev pub ends : String × String → ℕ → Outcome → Attempts
ends post sleep o = record { posts = post ∷ []; slept = sleep; outcome = o }

abbrev pub goes_on : String × String → ℕ → Attempts → Attempts
goes_on post sleep rest = record {
  posts = post ∷ rest.posts;
  slept = sleep + rest.slept;
  outcome = rest.outcome;
}

-- One attempt, with the attempts that follow it.
unfoldable pub after_post : Reply → String × String → ℕ → Attempts → Attempts
after_post broken post sleep rest = goes_on post sleep rest
after_post (answered status) post sleep rest =
    if leb 200 status && ltb status 300
    then ends post sleep delivered
    else (if leb 400 status && ltb status 500
        then ends post sleep (refused status)
        else goes_on post sleep rest)

unfoldable pub attempts : Outside → FeishuConfig → String → ℕ → List ℕ → Attempts
attempts out c body i [] = record { posts = []; slept = 0; outcome = exhausted }
attempts out c body i (sleep ∷ backoff) =
    after_post (out.reply i) (full_url out c (out.clock i), body) sleep
      (attempts out c body (suc i) backoff)

abbrev pub backoff : List ℕ
backoff = 0 ∷ 1 ∷ 3 ∷ 10 ∷ []

pub record AlertHistory : Type 0 where
  pub id : ℕ
  pub rule_name : String
  pub severity : String
  pub subject_type : String
  pub subject_name : String
  pub message : String
  pub created_at : ℕ

-- `marked` holds the times at which the keys feishu:send:{alert_id} expire.
abbrev pub Marks : Type 0
Marks = ℕ → ℕ

-- The Booleans sent and failed of Send, with the posts.
pub record Sent : Type 0 where
  pub sent : Bool
  pub failed : Bool
  pub posts : List (String × String)

abbrev pub nothing_sent : Sent
nothing_sent = record { sent = false; failed = false; posts = [] }

is_delivered : Outcome → Bool
is_delivered delivered = true
is_delivered (refused status) = false
is_delivered exhausted = false

unfoldable pub send_body : Outside → FeishuConfig → Option String → Sent
unfolding is_delivered
send_body out c none = record { sent = false; failed = true; posts = [] }
send_body out c (some body) =
    let a = attempts out c body 0 backoff in
    record { sent = true; failed = not (is_delivered a.outcome); posts = a.posts }

-- SET NX for a day; an error of Redis lets the alert pass.
unfoldable pub mark : Calls → ℕ → ℕ → Option Marks → Bool × Option Marks
mark calls now id none = (true, none)
mark calls now id (some marks) =
    if calls.redis_answers
    then (if ltb now (marks id)
        then (false, some marks)
        else (true, some (λ j. if j == id then now + 86400 else marks j)))
    else (true, some marks)

unfoldable pub card_of : Outside → ℕ → AlertHistory → Card
card_of out now h =
    build_alert_card out.texts h.rule_name h.severity h.subject_type h.subject_name h.message
      (if h.created_at == 0 then now else h.created_at)

unfoldable pub send_with :
    Option FeishuConfig → Outside → Calls → ℕ → AlertHistory → Option Marks → Sent × Option Marks
unfolding mark send_body
send_with none out calls now h marks = (nothing_sent, marks)
send_with (some c) out calls now h marks =
    let m = mark calls now h.id marks in
    if m.0 then (send_body out c (out.marshal (card_of out now h)), m.1) else (nothing_sent, m.1)

pub record World : Type 0 where
  pub notifier : Notifier
  pub marks : Option Marks
  pub actions : List (ℕ × String)

-- Send, with the notifier and the keys after it.
unfoldable pub send : Outside → Calls → ℕ → AlertHistory → World → Sent × World
unfolding send_with
send out calls now h w =
    let l = load_config out calls now w.notifier in
    let s = send_with l.0 out calls now h w.marks in (s.0, record w { notifier = l.1; marks = s.1 })

unfoldable pub action_status : Sent → String
action_status s = if s.failed then "failed" else (if s.sent then "sent" else "degraded")

-- SendForAlert: the action has the history's id and a status. With the posts.
unfoldable pub send_for_alert :
    Outside → Calls → ℕ → AlertHistory → World → List (String × String) × World
send_for_alert out calls now h w =
    let p = send out calls now h w in
    (
      (p.0).posts,
      if calls.creates
          then record p.1 { actions = (p.1).actions ++ (h.id, action_status p.0) ∷ [] }
          else p.1,
    )
