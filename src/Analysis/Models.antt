-- ===== src/Analysis/Models.antt =====
-- modules/analysis/models.py and schemas.py. The tables stand in the order of their creation; an
-- incident's type is one of the four texts that the code writes.
use mail_control.Base.{ℕ, String, Bool, true, false, Option, none, some, List, ◌==◌, ◌&&◌, same}
use mail_control.Mail.Messages.{MailDb}

pub data RiskLevel : Type 0 where
  low medium high critical : RiskLevel

pub data AlertType : Type 0 where
  payment_rejected payment_method_expired renewal_due password_changed email_changed : AlertType
  verification_code access_attempt security : AlertType

abbrev pub alert_code : AlertType → ℕ
alert_code payment_rejected = 0
alert_code payment_method_expired = 1
alert_code renewal_due = 2
alert_code password_changed = 3
alert_code email_changed = 4
alert_code verification_code = 5
alert_code access_attempt = 6
alert_code security = 7

unfoldable pub same_alert : AlertType → AlertType → Bool
same_alert a b = alert_code a == alert_code b

-- `alert_type.value`
abbrev pub alert_value : AlertType → String
alert_value payment_rejected = "payment_rejected"
alert_value payment_method_expired = "payment_method_expired"
alert_value renewal_due = "renewal_due"
alert_value password_changed = "password_changed"
alert_value email_changed = "email_changed"
alert_value verification_code = "verification_code"
alert_value access_attempt = "access_attempt"
alert_value security = "security"

-- What `incident_transition` opens and resolves: an alert type of PAYMENT_ALERT_VALUES, or
-- "account_suspended", which is no alert type.
pub data IncidentType : Type 0 where
  rejected_payment expired_method due_renewal account_suspended : IncidentType

abbrev incident_code : IncidentType → ℕ
incident_code rejected_payment = 0
incident_code expired_method = 1
incident_code due_renewal = 2
incident_code account_suspended = 3

unfoldable pub same_incident : IncidentType → IncidentType → Bool
same_incident a b = incident_code a == incident_code b

-- `AlertType(incident_type)`, `none` where it raises.
abbrev pub alert_of : IncidentType → Option AlertType
alert_of rejected_payment = some payment_rejected
alert_of expired_method = some payment_method_expired
alert_of due_renewal = some renewal_due
alert_of account_suspended = none

-- The incident type with the value of a payment alert.
abbrev pub incident_of : AlertType → Option IncidentType
incident_of payment_rejected = some rejected_payment
incident_of payment_method_expired = some expired_method
incident_of renewal_due = some due_renewal
incident_of _ = none

pub data Category : Type 0 where
  netflix disney prime_video spotify adobe microsoft apple steam google : Category
  security_mail payments renewals invoices marketing promotions other : Category

abbrev pub category_value : Category → String
category_value netflix = "Netflix"
category_value disney = "Disney+"
category_value prime_video = "Prime Video"
category_value spotify = "Spotify"
category_value adobe = "Adobe"
category_value microsoft = "Microsoft"
category_value apple = "Apple"
category_value steam = "Steam"
category_value google = "Google"
category_value security_mail = "Seguridad"
category_value payments = "Pagos"
category_value renewals = "Renovaciones"
category_value invoices = "Facturas"
category_value marketing = "Marketing"
category_value promotions = "Promociones"
category_value other = "Otros"

pub record AnalysisResult : Type 0 where
  pub service : Option String
  pub platform : Option String
  pub amount : Option String
  pub currency : Option String
  pub country : Option String
  pub language : String
  pub priority : String
  pub email_type : String
  pub category : Category
  pub action_required : Option String
  pub risk_level : RiskLevel
  pub alert_types : List AlertType

-- A row of `email_analyses`: the result as it was stored, and where it came from.
pub record EmailAnalysis : Type 0 where
  pub id : ℕ
  pub tenant_id : ℕ
  pub email_message_id : ℕ
  pub result : AnalysisResult
  pub model : String
  pub prompt_version : String

pub record Alert : Type 0 where
  pub id : ℕ
  pub tenant_id : ℕ
  pub email_message_id : ℕ
  pub analysis_id : ℕ
  pub alert_type : AlertType
  pub title : String
  pub detail : Option String
  pub risk_level : RiskLevel
  pub resolved_at : Option ℕ

pub data IncidentStatus : Type 0 where
  active resolved : IncidentStatus

abbrev pub is_resolved : IncidentStatus → Bool
is_resolved active = false
is_resolved resolved = true

-- The unique key of an incident.
pub record IncidentKey : Type 0 where
  pub tenant : ℕ
  pub account : ℕ
  pub service_key : String
  pub incident_type : IncidentType

unfoldable pub same_incident_key : IncidentKey → IncidentKey → Bool
same_incident_key a b =
    a.tenant == b.tenant
    && a.account == b.account
    && same a.service_key b.service_key
    && same_incident a.incident_type b.incident_type

pub record AnalysisIncident : Type 0 where
  pub key : IncidentKey
  pub status : IncidentStatus
  pub current_analysis_id : ℕ
  pub current_message_id : ℕ
  pub opened_at : Option ℕ
  pub resolved_at : Option ℕ
  pub resolution_reason : Option String
  pub last_event_received_at : ℕ

pub record AnalysisDb : Type 0 where
  pub mail : MailDb
  pub analyses : List EmailAnalysis
  pub alerts : List Alert
  pub incidents : List AnalysisIncident
  pub next_id : ℕ
