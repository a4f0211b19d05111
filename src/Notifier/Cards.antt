-- ===== src/Notifier/Cards.antt =====
-- The card of an alert.
use Prim.Native.String
use api_ops.Common.{ℕ, Bool, true, Option, none, some, List, [], ◌∷◌, String, String_discrete, ite}

pub record CardConfig : Type 0 where
  pub wide_screen_mode : Bool

pub record CardTitle : Type 0 where
  pub tag : String
  pub content : String

pub record CardHeader : Type 0 where
  pub title : CardTitle

pub record CardText : Type 0 where
  pub tag : String
  pub content : String

pub record CardHref : Type 0 where
  pub url : String

pub record CardField : Type 0 where
  pub is_short : Bool
  pub text : CardText

pub record CardElement : Type 0 where
  pub tag : String
  pub text : Option CardText
  pub note : Option CardText
  pub href : Option CardHref
  pub fields : List CardField

pub record CardBody : Type 0 where
  pub config : CardConfig
  pub header : CardHeader
  pub elements : List CardElement

pub record Card : Type 0 where
  pub msg_type : String
  pub card : CardBody

pub record Texts : Type 0 where
  pub to_lower : String → String
  pub to_upper : String → String
  pub format_time : ℕ → String

unfoldable pub severity_color : Texts → String → String
severity_color tx severity =
    let s = tx.to_lower severity in
    ite (String_discrete s "critical") "red" (
      ite (String_discrete s "high") "orange"
        (ite (String_discrete s "warning") "yellow" (ite (String_discrete s "info") "blue" "grey")))

lark : String → String → CardText
lark title body = record { tag = "lark_md"; content = String.◌++◌ title body }

plain_element : String → CardElement
plain_element tag = record { tag = tag; text = none; note = none; href = none; fields = [] }

unfoldable pub build_alert_card : Texts → String → String → String → String → String → ℕ → Card
unfolding lark plain_element
build_alert_card tx rule_name severity subject_type subject_name message ts = record {
  msg_type = "interactive";
  card = record {
    config = record { wide_screen_mode = true };
    header = record {
      title = record {
        tag = "plain_text";
        content = String.◌++◌ "[" (String.◌++◌ (tx.to_upper severity) (String.◌++◌ "] " rule_name));
      };
    };
    elements =
        record (plain_element "div") {
          fields =
              record { is_short = true; text = lark "**主体**\n" subject_name }
              ∷ record { is_short = true; text = lark "**类型**\n" subject_type }
              ∷ [];
        }
        ∷ record (plain_element "div") { text = some (lark "**详情**\n" message) }
        ∷ plain_element "hr"
        ∷ record (plain_element "note") {
          note = some (record {
            tag = "plain_text";
            content = String.◌++◌ "api-ops · " (tx.format_time ts);
          });
        }
        ∷ [];
  };
}
