-- ===== src/Command/Exec/Queries.antt =====
-- The commands that only ask.
use ri_mms_linux.Prelude.{ℕ, ◌≡◌, refl, List, ◌∷◌, codes}
use ri_mms_linux.Gateway.{Gateway, World, Instant}
use ri_mms_linux.Command.System.{exec_modem, exec_getupdate, exec_status, exec_system}
use ri_mms_linux.Command.Sensors.{exec_list, exec_name, exec_get, exec_sensor}
use ri_mms_linux.Command.Exec.{exec_command}
use ri_mms_linux.Command.Exec.Logged.{Leaves, leaves, undefined_ends, if-Leaves}

-- Their first words; the rest is as it comes.
pub data IsQuery : List (List ℕ) → Type 0 where
  modem : (rest : List (List ℕ)) → IsQuery (codes "MODEM" ∷ rest)
  sensor_list : (rest : List (List ℕ)) → IsQuery (codes "SENSOR" ∷ codes "LIST" ∷ rest)
  sensor_name : (rest : List (List ℕ)) → IsQuery (codes "SENSOR" ∷ codes "NAME" ∷ rest)
  sensor_get : (rest : List (List ℕ)) → IsQuery (codes "SENSOR" ∷ codes "GET" ∷ rest)
  getupdate : (rest : List (List ℕ)) → IsQuery (codes "SYSTEM" ∷ codes "GETUPDATE" ∷ rest)
  pwr : (rest : List (List ℕ)) → IsQuery (codes "SYSTEM" ∷ codes "PWR" ∷ rest)
  status : (rest : List (List ℕ)) → IsQuery (codes "SYSTEM" ∷ codes "STATUS" ∷ rest)
  unit_name : (rest : List (List ℕ)) → IsQuery (codes "SYSTEM" ∷ codes "NAME" ∷ rest)
  ping : (rest : List (List ℕ)) → IsQuery (codes "PING" ∷ rest)
  ver : (rest : List (List ℕ)) → IsQuery (codes "VER" ∷ rest)

module _ {S : Type 0} (world : World S) (at : Instant) where
  -- MODEM, SENSOR with LIST, NAME or GET, SYSTEM with GETUPDATE, PWR, STATUS or NAME, PING and VER
  -- change none of the globals, whatever parameters follow: no sensor, file, setting or flag, nor
  -- the database.
  pub exec_command-IsQuery :
      (params : List (List ℕ)) (g : Gateway S)
      → IsQuery params
      → Leaves (λ g'. g' ≡ g) (exec_command world at params g)
  unfolding exec_command exec_modem exec_sensor exec_list exec_name exec_get exec_system
      exec_getupdate exec_status
  exec_command-IsQuery _ g (modem rest) = leaves _ _ _ refl
  exec_command-IsQuery _ g (sensor_list rest) =
      if-Leaves (λ g'. g' ≡ g) _ _ _ (leaves _ _ _ refl) undefined_ends
  exec_command-IsQuery _ g (sensor_name rest) = leaves _ _ _ refl
  exec_command-IsQuery _ g (sensor_get rest) = leaves _ _ _ refl
  exec_command-IsQuery _ g (getupdate rest) = leaves _ _ _ refl
  exec_command-IsQuery _ g (pwr rest) = leaves _ _ _ refl
  exec_command-IsQuery _ g (status rest) = leaves _ _ _ refl
  exec_command-IsQuery _ g (unit_name rest) = leaves _ _ _ refl
  exec_command-IsQuery _ g (ping rest) = leaves _ _ _ refl
  exec_command-IsQuery _ g (ver rest) = leaves _ _ _ refl
