-- ===== src/Listener.antt =====
-- evpp/listener.cc: the socket that a server listens on. `inet_pton` and `inet_ntop` and what the system calls return
-- are arguments; effects are listed in order.
pub mod Accepting
use evpp.Base.{ℕ, Bool, true, false, List, [], ◌∷◌, ◌++◌, Option, none, some, if◌then◌else◌}
use evpp.Sockets.{Family, Pton, to_ip_port}
use evpp.FdChannel.{FdChannel, Backend, attach_to_loop}
use evpp.FdChannel

-- What `accept` gives, if it does not fail, and whether `evutil_make_socket_nonblocking` succeeds.
pub record Client : Type 0 where
  pub fd : ℕ
  pub addr : List ℕ
  pub nonblocking : Bool

pub data Effect : Type 0 where
  -- `EVUTIL_CLOSESOCKET`
  closes : ℕ → Effect
  -- `new_conn_fn_`
  hands_over : ℕ → List ℕ → Effect

pub record Listener : Type 0 where
  pub chan : Option FdChannel
  pub new_conn_fn : Bool

module _ (pton : Family → List ℕ → Pton) (ntop : Family → List ℕ → Option (List ℕ)) where
  pub named : Bool → ℕ → List ℕ → List Effect
  named has_fn fd [] = closes fd ∷ []
  named has_fn fd (c ∷ raddr) = if has_fn then hands_over fd (c ∷ raddr) ∷ [] else []

  -- `HandleAccept`
  pub handle_accept : Listener → Option Client → List Effect
  handle_accept l none = []
  handle_accept l (some c) =
      if c.nonblocking
      then named l.new_conn_fn c.fd (to_ip_port pton ntop c.addr)
      else closes c.fd ∷ []

  -- The events of the channel, one by one
  pub handle_accepts : Listener → List (Option Client) → List Effect
  handle_accepts l [] = []
  handle_accepts l (c ∷ cs) = handle_accept l c ++ handle_accepts l cs

module _ (sys : Backend) where
  abbrev pub on_channel : (FdChannel → FdChannel) → Option FdChannel → Option FdChannel
  on_channel f none = none
  on_channel f (some c) = some (f c)

  -- `Accept`, and the task that it leaves to the loop
  pub accept : Listener → Listener
  accept l = record l { chan = some (record (FdChannel.new true false) { read_fn = true }) }

  pub attach : Listener → Listener
  attach l = record l { chan = on_channel (attach_to_loop sys) l.chan }

  -- `Stop`
  pub stop : Listener → Listener
  stop l = record l {
    chan = on_channel (λ c. FdChannel.close sys (FdChannel.disable_all_event sys c)) l.chan;
  }
