-- ===== src/Start/Main.antt =====
-- The functions main of pec-server/punto-accesso/main.go, pec-server/punto-ricezione/main.go and
-- pec-server/punto-consegna/main.go: what they come to, given what happens while they wait.
use go_pec.Base.{Text, utf8, Error, Outcome, ok, err, panic, List, [], ◌∷◌}
use go_pec.Start.Credentials.{StartLibrary}
use go_pec.Start.Servers.{
  new_punto_accesso_server, new_punto_ricezione_server, new_punto_consegna_server,
  stop_punto_accesso, stop_punto_ricezione, stop_punto_consegna, PuntoAccessoServer,
  PuntoRicezioneServer, PuntoConsegnaServer,
}

-- SIGINT or SIGTERM, the end of a listener's goroutine, or a request that is served and changes the
-- server, in the order in which they happen.
pub data Occurrence {ℓ} (S : Type ℓ) : Type ℓ where
  interrupted : Occurrence S
  ended : Outcome (Unit {0}) → Occurrence S
  served : (S → S) → Occurrence S

-- `fatal` is log.Fatalf with its text and error. After a signal the server is stopped, and an error
-- of that is logged only.
pub data Ending {ℓ} (S : Type ℓ) : Type ℓ where
  running : S → Ending S
  stopped : S → Ending S
  fatal : Text → Error → Ending S
  crashed : Ending S

module _ {ℓ} {S : Type ℓ} (stop : S → S × Outcome (Unit {0})) where
  -- The select. A listener that ends without an error sends nothing.
  unfoldable pub wait : S → List (Occurrence S) → Ending S
  wait s [] = running s
  wait s (interrupted ∷ _) = stopped (stop s).0
  wait s (ended (ok _) ∷ later) = wait s later
  wait s (ended (err e) ∷ _) = fatal (utf8 "Server error") e
  wait s (ended panic ∷ _) = crashed
  wait s (served f ∷ later) = wait (f s) later

  unfoldable pub with_server : Text → Outcome S → List (Occurrence S) → Ending S
  unfolding wait
  with_server failure (ok s) occurrences = wait s occurrences
  with_server failure (err e) occurrences = fatal failure e
  with_server failure panic occurrences = crashed

  unfoldable pub with_logger :
      Outcome (Unit {0}) → Text → Outcome S → List (Occurrence S) → Ending S
  unfolding with_server
  with_logger (ok _) failure made occurrences = with_server failure made occurrences
  with_logger (err e) failure made occurrences = fatal (utf8 "Logger initialization failed") e
  with_logger panic failure made occurrences = crashed

abbrev config_file : Text
config_file = utf8 "config.json"

module _ (lib : StartLibrary) (init_logger : Outcome (Unit {0})) where
  unfoldable pub main_punto_accesso :
      List (Occurrence PuntoAccessoServer) → Ending PuntoAccessoServer
  unfolding with_logger new_punto_accesso_server stop_punto_accesso
  main_punto_accesso =
      with_logger stop_punto_accesso init_logger (utf8 "Failed to create PEC server")
        (new_punto_accesso_server lib config_file)

  unfoldable pub main_punto_ricezione :
      List (Occurrence PuntoRicezioneServer) → Ending PuntoRicezioneServer
  unfolding with_logger new_punto_ricezione_server stop_punto_ricezione
  main_punto_ricezione =
      with_logger stop_punto_ricezione init_logger (utf8 "Failed to create PEC server")
        (new_punto_ricezione_server lib config_file)

  -- Two goroutines listen here, for IMAP and for HTTP.
  unfoldable pub main_punto_consegna :
      List (Occurrence PuntoConsegnaServer) → Ending PuntoConsegnaServer
  unfolding with_logger new_punto_consegna_server stop_punto_consegna
  main_punto_consegna =
      with_logger stop_punto_consegna init_logger (utf8 "Failed to create server")
        (new_punto_consegna_server lib config_file)
