-- ===== src/Config/Limits.antt =====
-- What `LoadConfig` sees to, however it ends.
use ri_mms_linux.Prelude.{ℕ, ◌≡◌, arith, Bool, true, false, List, Option, none, some}
use ri_mms_linux.Prelude.Int.{ℤ, pos, ◌≤ℤ◌}
use ri_mms_linux.Modem.{ModemType, lan}
use ri_mms_linux.Config.{
  Key, transferperiod, unitid, ftphost, ftplogin, ftppwd, ftpdir, ftpport, modemport, rimmsnetadd,
  Settings, ◌>>>=◌, load_text, load_period, load_gw, load_modem_type, load_keyboard, load_net_port,
  load_config,
}

abbrev is_lan : ModemType → Bool
is_lan lan = true
is_lan t = false

-- An upload period of at least a second, and a modem.
pub record IsUsable (s : Settings) : Type 0 where
  pub waits : pos 1 ≤ℤ s.period
  pub no_lan : is_lan s.modem_type ≡ false

then-IsUsable :
    {W : Type 0} (p : Settings × W × Bool) (next : Settings → W → Settings × W × Bool)
    → IsUsable p.0
    → ((s : Settings) (w : W) → IsUsable s → IsUsable (next s w).0)
    → IsUsable (p >>>= next).0
then-IsUsable (s, w, true) next u keeps = keeps s w u
then-IsUsable (s, w, false) next u keeps = u

module _ {W : Type 0} (db : Key → W → Option (List ℕ) × W) (atoi : List ℕ → ℤ) where
  load_text-IsUsable :
      (key : Key) (store : List ℕ → Settings → Settings)
      → ((text : List ℕ) (t : Settings) → IsUsable t → IsUsable (store text t))
      → (s : Settings) (w : W) → IsUsable s
      → IsUsable (load_text db atoi key store s w).0
  load_text-IsUsable key store keeps s w u = by_row (db key w).0
    where
      by_row :
          (row : Option (List ℕ))
          → IsUsable
              (elim row as (λ o. Settings × W × Bool) [
                | none ↦ (s, (db key w).1, false)
                | some text ↦ (store text s, (db key w).1, true)
              ]).0
      by_row none = u
      by_row (some text) = keeps text s u

  load_gw-IsUsable : (s : Settings) (w : W) → IsUsable s → IsUsable (load_gw db atoi s w).0
  unfolding load_gw
  load_gw-IsUsable s w u = record {
    waits = ground (arith, u.waits);
    no_lan = ground (arith, u.no_lan);
  }

  load_modem_type-IsUsable :
      (s : Settings) (w : W) → IsUsable s → IsUsable (load_modem_type db atoi s w).0
  unfolding load_modem_type
  load_modem_type-IsUsable s w u = record {
    waits = ground (arith, u.waits);
    no_lan = ground (arith, u.no_lan);
  }

  load_keyboard-IsUsable :
      (s : Settings) (w : W) → IsUsable s → IsUsable (load_keyboard db atoi s w).0
  unfolding load_keyboard
  load_keyboard-IsUsable s w u = record {
    waits = ground (arith, u.waits);
    no_lan = ground (arith, u.no_lan);
  }

  load_net_port-IsUsable :
      (s : Settings) (w : W) → IsUsable s → IsUsable (load_net_port db atoi s w).0
  unfolding load_net_port
  load_net_port-IsUsable s w u = record {
    waits = ground (arith, u.waits);
    no_lan = ground (arith, u.no_lan);
  }

  load_period-IsUsable :
      (text : List ℕ) (s : Settings) (w : W)
      → (db transferperiod w).0 ≡ some text
      → is_lan s.modem_type ≡ false
      → IsUsable (load_period db atoi s w).0
  unfolding load_period
  load_period-IsUsable text s w e l =
      rw (e, load_period) record { waits = ground arith; no_lan = l }

  -- When the database has a transfer period and the modem's type is not LAN, then however
  -- `LoadConfig` ends the transfer period is at least one second and the type is still not LAN: a
  -- LAN cannot be configured.
  pub load_config-IsUsable :
      (text : List ℕ) (s : Settings) (w : W)
      → (db transferperiod w).0 ≡ some text
      → is_lan s.modem_type ≡ false
      → IsUsable (load_config db atoi s w).0
  unfolding load_config
  load_config-IsUsable text s w e l =
      add rimmsnetadd (λ x t. record t { net_address = x }) _
        (λ x t u. record { waits = u.waits; no_lan = u.no_lan })
        (then-IsUsable _ (load_net_port db atoi)
          (then-IsUsable _ (load_keyboard db atoi)
            (then-IsUsable _ (load_modem_type db atoi)
              (add modemport (λ x t. record t { modem_port = x }) _
                (λ x t u. record { waits = u.waits; no_lan = u.no_lan })
                (then-IsUsable _ (load_gw db atoi)
                  (add ftpport (λ x t. record t { port = x }) _
                    (λ x t u. record { waits = u.waits; no_lan = u.no_lan })
                    (add ftpdir (λ x t. record t { directory = x }) _
                      (λ x t u. record { waits = u.waits; no_lan = u.no_lan })
                      (add ftppwd (λ x t. record t { password = x }) _
                        (λ x t u. record { waits = u.waits; no_lan = u.no_lan })
                        (add ftplogin (λ x t. record t { login = x }) _
                          (λ x t u. record { waits = u.waits; no_lan = u.no_lan })
                          (add ftphost (λ x t. record t { host = x }) _
                            (λ x t u. record { waits = u.waits; no_lan = u.no_lan })
                            (add unitid (λ x t. record t { unit_name = x }) _
                              (λ x t u. record { waits = u.waits; no_lan = u.no_lan })
                              (load_period-IsUsable text s w e l)))))))
                  load_gw-IsUsable))
              load_modem_type-IsUsable)
            load_keyboard-IsUsable)
          load_net_port-IsUsable)
    where
      add :
          (key : Key) (store : List ℕ → Settings → Settings) (p : Settings × W × Bool)
          → ((text : List ℕ) (t : Settings) → IsUsable t → IsUsable (store text t))
          → IsUsable p.0
          → IsUsable (p >>>= load_text db atoi key store).0
      add key store p keeps u =
          then-IsUsable p (load_text db atoi key store) u (load_text-IsUsable key store keeps)
