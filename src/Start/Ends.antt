-- ===== src/Start/Ends.antt =====
-- How the functions main of pec-server end.
use go_pec.Base.{Text, utf8, lookup, Outcome, ok, err, panic, ◌≡◌, refl, ◌↔◌, List, [], ◌∷◌}
use go_pec.Storage.{get_messages, close}
use go_pec.Start.Credentials.{StartLibrary}
use go_pec.Start.Servers.{new_punto_consegna_server, stop_punto_consegna, PuntoConsegnaServer}
use go_pec.Start.Main.{
  wait, with_server, with_logger, main_punto_consegna, Occurrence, interrupted, ended, served,
  Ending, running, stopped, fatal, crashed,
}

-- A signal comes before any error of a listener.
abbrev pub IsInterrupted {ℓ} : {S : Type ℓ} → List (Occurrence S) → Type 0
IsInterrupted [] = ⊥
IsInterrupted (interrupted ∷ _) = Unit
IsInterrupted (ended (ok _) ∷ later) = IsInterrupted later
IsInterrupted (ended (err _) ∷ _) = ⊥
IsInterrupted (ended panic ∷ _) = ⊥
IsInterrupted (served _ ∷ later) = IsInterrupted later

-- The program stopped its server, and left it as the predicate says.
abbrev pub IsStopped {ℓ} : {S : Type ℓ} → (S → Type 0) → Ending S → Type 0
IsStopped P (running s) = ⊥
IsStopped P (stopped s) = P s
IsStopped P (fatal failure e) = ⊥
IsStopped P crashed = ⊥

-- What it takes: the logger starts, the server can be made, and the signal comes in time.
abbrev pub IsShutDown {ℓ} :
    {S : Type ℓ} → Outcome (Unit {0}) → Outcome S → List (Occurrence S) → Type ℓ
IsShutDown {S = S} init made os = (init ≡ ok tt) × ((s : S) × (made ≡ ok s)) × IsInterrupted os

module _ {ℓ} {S : Type ℓ} (stop : S → S × Outcome (Unit {0})) (P : S → Type 0)
    (left : (s : S) → P (stop s).0) where
  wait_iff : (s : S) (os : List (Occurrence S)) → IsStopped P (wait stop s os) ↔ IsInterrupted os
  unfolding wait
  wait_iff s [] = (λ x. x, λ x. x)
  wait_iff s (interrupted ∷ _) = (λ x. tt, λ x. left s)
  wait_iff s (ended (ok _) ∷ os) = wait_iff s os
  wait_iff s (ended (err _) ∷ _) = (λ x. x, λ x. x)
  wait_iff s (ended panic ∷ _) = (λ x. x, λ x. x)
  wait_iff s (served f ∷ os) = wait_iff (f s) os

  with_server_iff :
      (failure : Text) (made : Outcome S) (os : List (Occurrence S))
      → IsStopped P (with_server stop failure made os)
        ↔ (((s : S) × (made ≡ ok s)) × IsInterrupted os)
  unfolding with_server
  with_server_iff failure (ok s) os =
      let iff = wait_iff s os in (λ x. ((s, refl), iff.0 x), λ x. iff.1 x.1)
  with_server_iff failure (err _) os = (λ x. absurd x, λ x. absurd (let e = x.0.1 in cc))
  with_server_iff failure panic os = (λ x. absurd x, λ x. absurd (let e = x.0.1 in cc))

  with_logger_iff :
      (init : Outcome (Unit {0})) (failure : Text) (made : Outcome S) (os : List (Occurrence S))
      → IsStopped P (with_logger stop init failure made os) ↔ IsShutDown init made os
  unfolding with_logger
  with_logger_iff (ok _) failure made os =
      let iff = with_server_iff failure made os in
      (λ x. let (made_so, signal) = iff.0 x in (refl, made_so, signal), λ x. iff.1 (x.1, x.2))
  with_logger_iff (err _) failure made os = (λ x. absurd x, λ x. absurd (let e = x.0 in cc))
  with_logger_iff panic failure made os = (λ x. absurd x, λ x. absurd (let e = x.0 in cc))

-- After Stop no mailbox has mail.
stop_punto_consegna-empties :
    (u : Text) (s : PuntoConsegnaServer) → get_messages u (stop_punto_consegna s).0.store ≡ []
unfolding stop_punto_consegna close get_messages lookup
stop_punto_consegna-empties u s = refl

-- The main of the delivery point stops its server exactly when the logger starts, the server can be
-- made from the configuration file, and a signal comes before any error or panic of a listener; it
-- then leaves a store in which no mailbox has mail, whatever was served before.
pub main_punto_consegna-IsStopped_iff :
    (lib : StartLibrary) (init : Outcome (Unit {0})) (os : List (Occurrence PuntoConsegnaServer))
    (u : Text)
    → (IsStopped (λ t. Unit {0}) (main_punto_consegna lib init os)
        ↔ IsShutDown init (new_punto_consegna_server lib (utf8 "config.json")) os)
      × (IsStopped (λ t. get_messages u t.store ≡ []) (main_punto_consegna lib init os)
          ↔ IsShutDown init (new_punto_consegna_server lib (utf8 "config.json")) os)
unfolding main_punto_consegna
main_punto_consegna-IsStopped_iff lib init os u =
    let made = new_punto_consegna_server lib (utf8 "config.json") in
    (
      with_logger_iff stop_punto_consegna (λ t. Unit {0}) (λ s. tt) init
          (utf8 "Failed to create server") made os,
      with_logger_iff stop_punto_consegna (λ t. get_messages u t.store ≡ [])
          (stop_punto_consegna-empties u) init (utf8 "Failed to create server") made os,
    )
