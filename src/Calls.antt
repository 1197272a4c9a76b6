-- ===== src/Calls.antt =====
-- The native code between two calls of sdbus-c++: a task logs the requests that it makes, and
-- returns or throws. A failed request throws `sdbus::Error` with the name and message of the
-- answer.
use bluez_obex_native.Common.{List, [], ◌∷◌, ◌++◌}
use bluez_obex_native.Sdbus.{Sdbus, Outcome, ok, throws, dbus_error}
use bluez_obex_native.Bus.{Request, Answer, reply, error, Bus, ReplyType, Reply}

module _ ⦃s : Sdbus⦄ where
  abbrev pub Task : Type 0 → Type 0
  Task A = List Request → Outcome A × List Request

  abbrev pub then_task :
      {A B : Type 0} → (A → Task B) → Outcome A × List Request → Outcome B × List Request
  then_task f (ok x, log) = f x log
  then_task f (throws e, log) = (throws e, log)

  infixl 5 ◌>>=◌
  abbrev pub ◌>>=◌ : {A B : Type 0} → Task A → (A → Task B) → Task B
  (m >>= f) log = then_task f (m log)

  abbrev pub pure : {A : Type 0} → A → Task A
  pure x log = (ok x, log)

  abbrev pub lift : {A : Type 0} → Outcome A → Task A
  lift o log = (o, log)

  abbrev pub answered : {A : Type 0} → Answer A → Outcome A
  answered (reply x) = ok x
  answered (error name message) = throws (dbus_error name message)

  module _ ⦃bus : Bus⦄ where
    abbrev pub call : (t : ReplyType) → Request → Task (Reply t)
    call t r log = (answered (bus.respond t log r), log ++ r ∷ [])
