-- ===== src/Tests/Ports.antt =====
-- The choice of a port in src/ios_webkit_debug_proxy.c, where the first port of the range is in use.
use bootstrap_agency_templat.Prelude.{
  ℕ, suc, ◌≡◌, refl, inl, inr, some, [], ◌==◌, if◌then◌else◌, Bool-cases,
}
use bootstrap_agency_templat.Libc.{codes}
use bootstrap_agency_templat.PortConfig.{negative_one}
use bootstrap_agency_templat.Rpc.{success}
use bootstrap_agency_templat.Proxy.Listen.{
  Net, find_iport, is_taken, with_iport, scan, first_try, bind, settle, listen,
}
use bootstrap_agency_templat.Proxy.Chosen.{Listens}
use bootstrap_agency_templat.Proxy.Listens.{NeverZero, listen-Listens}

abbrev net : Net ℕ
net = record {
  select_port = λ device_id port e. (e, some (negative_one, 9222, 9229));
  listen = λ p e. (suc e, if p == 9223 then 5 else negative_one);
  add_fd = λ fd e. (e, success);
}

net-NeverZero : NeverZero net
net-NeverZero p e = elim (Bool-cases (p == 9223)) [
  | inl t ↦ rw (t) (inl refl)
  | inr f ↦ rw (f) (inr refl)
]

-- both ports of the range were tried
tried : (listen net (some (codes "d")) [] 0).1 ≡ 2
unfolding listen find_iport with_iport bind first_try scan is_taken settle
tried = refl

listen-Listens_example : Listens net (some (codes "d")) [] (listen net (some (codes "d")) [] 0).0
unfolding listen find_iport with_iport bind first_try scan is_taken settle
listen-Listens_example = listen-Listens net (codes "d") [] 0 net-NeverZero refl
