-- ===== src/Analysis/Texts.antt =====
-- The text tests of modules/analysis/service.py, and the markers that it looks for.
use Prim.Native.Char.{code}
use mail_control.Base.{
  String, Bool, true, false, ◌&&◌, ◌||◌, List, [], ◌∷◌, ◌==◌, any, if◌then◌else◌,
}

abbrev pub starts_with : String → String → Bool
starts_with String.[] s = true
starts_with (String.◌∷◌ c p) String.[] = false
starts_with (String.◌∷◌ c p) (String.◌∷◌ d s) = (code c == code d) && starts_with p s

-- `needle in text`
unfoldable pub includes : String → String → Bool
includes needle String.[] = starts_with needle String.[]
includes needle (String.◌∷◌ c s) = starts_with needle (String.◌∷◌ c s) || includes needle s

unfoldable pub includes_any : List String → String → Bool
unfolding includes
includes_any markers text = any (λ marker. includes marker text) markers

-- `.replace("-", "_").replace(" ", "_")`
unfoldable pub underscored : String → String
underscored String.[] = String.[]
underscored (String.◌∷◌ c s) =
    let rest = underscored s in
    if (code c == b'-') || (code c == b' ') then String.◌∷◌ "_" rest else String.◌∷◌ c rest

abbrev pub confirmed_payment_markers : List String
confirmed_payment_markers =
    "actualizamos tu información con la nueva forma de pago" ∷ "método de pago fue actualizado"
    ∷ "forma de pago fue actualizada" ∷ "pago recibido" ∷ "pago realizado" ∷ "pago exitoso"
    ∷ "payment method has been updated" ∷ "payment was successful"
    ∷ "i tuoi dati di pagamento sono stati aggiornati" ∷ "metodo di pagamento aggiornato"
    ∷ "metodo di pagamento è stato aggiornato"
    ∷ "abbiamo aggiornato il tuo account con i nuovi dati di pagamento" ∷ []

abbrev pub payment_failure_markers : List String
payment_failure_markers =
    "pago rechazado" ∷ "pago fallido" ∷ "no pudimos procesar" ∷ "problema con tu pago"
    ∷ "método de pago vencido" ∷ "actualiza tu forma de pago" ∷ "actualizar tu forma de pago"
    ∷ "payment declined" ∷ "payment failed" ∷ "update your payment" ∷ []

abbrev pub renewal_confirmed_markers : List String
renewal_confirmed_markers =
    "renovación completada" ∷ "renovación confirmada" ∷ "suscripción renovada"
    ∷ "membresía renovada" ∷ "renewal completed" ∷ "subscription renewed" ∷ []

abbrev pub account_reactivated_markers : List String
account_reactivated_markers =
    "cuenta reactivada" ∷ "cuenta vuelve a estar activa" ∷ "cuenta está activa nuevamente"
    ∷ "account reactivated" ∷ "account is active again" ∷ []
