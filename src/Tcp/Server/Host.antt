-- ===== src/Tcp/Server/Host.antt =====
-- What the simulation thread leaves of the server, while the socket thread waits.
use caliptra_ss.Base.{◌≡◌, List, [], ◌∷◌, arith, ◌∙◌, refl, Bool, true, false}
use caliptra_ss.Tcp.Os.{HostOp, take_in, put_out, stop_running}
use caliptra_ss.Tcp.Server.Monad.{Server, host_step, host_steps}

-- Whether the simulation asks for the end among other things that it does.
abbrev pub asks_end : List HostOp → Bool
asks_end [] = false
asks_end (stop_running ∷ ops) = true
asks_end (_ ∷ ops) = asks_end ops

host_step-kept :
    (op : HostOp) (s : Server)
    → ((host_step op s).cfd ≡ s.cfd)
      × ((host_step op s).sfd ≡ s.sfd)
      × ((host_step op s).log ≡ s.log)
unfolding host_step
host_step-kept take_in s = (refl, refl, refl)
host_step-kept (put_out x) s = (ground arith, ground arith, ground arith)
host_step-kept stop_running s = (refl, refl, refl)

-- The simulation thread touches neither descriptor.
pub host_steps-kept :
    (ops : List HostOp) (s : Server)
    → ((host_steps ops s).cfd ≡ s.cfd)
      × ((host_steps ops s).sfd ≡ s.sfd)
      × ((host_steps ops s).log ≡ s.log)
unfolding host_steps
host_steps-kept [] s = (refl, refl, refl)
host_steps-kept (op ∷ ops) s =
    let (c, f, l) = host_step-kept op s in
    let (c', f', l') = host_steps-kept ops (host_step op s) in (c' ∙ c, f' ∙ f, l' ∙ l)

host_step-stopped :
    (op : HostOp) (s : Server) → s.socket_run ≡ false → (host_step op s).socket_run ≡ false
unfolding host_step
host_step-stopped take_in s h = h
host_step-stopped (put_out x) s h = ground arith
host_step-stopped stop_running s h = refl

-- Nothing sets `socket_run` again.
host_steps-stopped :
    (ops : List HostOp) (s : Server) → s.socket_run ≡ false → (host_steps ops s).socket_run ≡ false
unfolding host_steps
host_steps-stopped [] s h = h
host_steps-stopped (op ∷ ops) s h =
    host_steps-stopped ops (host_step op s) (host_step-stopped op s h)

pub host_steps-asked :
    (ops : List HostOp) (s : Server) → asks_end ops ≡ true → (host_steps ops s).socket_run ≡ false
unfolding host_steps
host_steps-asked [] s h = ground arith
host_steps-asked (take_in ∷ ops) s h = host_steps-asked ops (host_step take_in s) h
host_steps-asked (put_out x ∷ ops) s h = host_steps-asked ops (host_step (put_out x) s) h
host_steps-asked (stop_running ∷ ops) s h =
    host_steps-stopped ops (host_step stop_running s) (unfold host_step in refl)
