-- ===== src/Create/Hosts.antt =====
-- Which arguments of `modbus_new_tcp_pi` make a context, and what is allocated then.
use libmodbus.Base.{
  ℕ, ◌≡◌, refl, pos, negsuc, Bool, true, ◌≢◌, not, if_intro, List, [], ◌∷◌, Option, none, some,
}
use libmodbus.Context.{Result, ok, err, pending, Modbus, tcp, init_common}
use libmodbus.System.{release}
use libmodbus.Create.{
  context_block, backend_block, node_block, service_block, tcp_pi_free, service_or_default,
  TcpPiData, new_tcp_pi,
}
use libmodbus.Create.Contexts.{failed_one, held}

module _ (malloc : ℕ → Bool) (raw : Modbus) where
  abbrev pub HasTcpPiMemory : Type 0
  HasTcpPiMemory =
      (malloc context_block ≡ true)
      × (malloc backend_block ≡ true)
      × (malloc node_block ≡ true)
      × (malloc service_block ≡ true)

  abbrev pub IsNewTcpPi : List ℕ × Result (Modbus × TcpPiData) → Type 0
  IsNewTcpPi (live, ok (ctx, tcp_data)) =
      HasTcpPiMemory
      × (tcp_pi_free live ≡ [])
      × (ctx.backend ≡ tcp)
      × (ctx.slave ≡ pos 255)
      × (ctx.s ≡ negsuc 0)
      × (tcp_data.service ≢ [])
  IsNewTcpPi (live, err e) = (live ≡ []) × ¬ HasTcpPiMemory
  IsNewTcpPi (live, pending) = ⊥

  service_or_default-ne-nil : (service : Option (List ℕ)) → service_or_default service ≢ []
  service_or_default-ne-nil none = λ h. cc
  service_or_default-ne-nil (some []) = λ h. cc
  service_or_default-ne-nil (some (c ∷ service)) = λ h. cc

  -- `modbus_new_tcp_pi` returns a context exactly where all four allocations succeed. It is
  -- unconnected, with slave 0xFF and a service that is not empty, and its release frees the four
  -- blocks; where none is returned, every block that was allocated is freed.
  pub new_tcp_pi-IsNewTcpPi :
      (node service : Option (List ℕ)) → IsNewTcpPi (new_tcp_pi malloc raw node service)
  unfolding new_tcp_pi tcp_pi_free release init_common
  new_tcp_pi-IsNewTcpPi host service =
      if_intro IsNewTcpPi (not (malloc context_block)) _ _ (λ h. (refl, λ p. failed_one h p.0))
        λ h1.
          if_intro IsNewTcpPi (not (malloc backend_block)) _ _ (λ h. (refl, λ p. failed_one h p.1))
            λ h2.
              if_intro IsNewTcpPi (not (malloc node_block)) _ _ (λ h. (refl, λ p. failed_one h p.2))
                λ h3.
                  if_intro IsNewTcpPi (not (malloc service_block)) _ _
                    (λ h. (refl, λ p. failed_one h p.3))
                    λ h4. (
                      (held _ h1, held _ h2, held _ h3, held _ h4),
                      refl,
                      refl,
                      refl,
                      refl,
                      service_or_default-ne-nil service,
                    )
