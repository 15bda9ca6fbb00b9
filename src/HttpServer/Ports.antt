-- ===== src/HttpServer/Ports.antt =====
-- evpp/http/http_server.cc, Init: the ports that a server listens at.
use evpp.Base.{
  ℕ, zero, suc, ◌^◌, ◌<◌, ◌≡◌, ◌≢◌, refl, sym, ap, ap₂, ◌∙◌, Bool, true, false, List, [], ◌∷◌, ◌++◌,
  append_assoc, append-nil, some, ◌&&◌, map, if◌then◌else◌, Bool-cases, inl, inr, All, arith,
  length, length-append,
}
use evpp.Base.Decimal.{pos, atoi, to_string, atoi-to_string, has-to_string, to_string-head}
use evpp.EvhttpService.{Service, listen, new}
use evpp.EvhttpService
use evpp.EventLoop.{initialized, initializing}
use evpp.Utility.Splitting.{join, Without, string_split-join}
use evpp.HttpServer.{
  HttpServer, ListenThread, init_port, init_each, settled, init_ports, with_port, port_numbers,
  if_ports, init,
}

abbrev pub all_bound : (ℕ → Bool) → List ℕ → Bool
all_bound binds [] = true
all_bound binds (port ∷ ports) = binds port && all_bound binds ports

-- The ports in front of the first one that cannot be bound
abbrev pub bound : (ℕ → Bool) → List ℕ → List ℕ
bound binds [] = []
bound binds (port ∷ ports) = if binds port then port ∷ bound binds ports else []

-- A thread that is to listen at a port
abbrev pub listening : ℕ → ListenThread
listening port = record {
  loop = port;
  thread_running = false;
  hservice = record EvhttpService.new { bound_socket = true; enabled = true };
}

-- A server with listening threads for these ports
abbrev pub with_ports : Bool → List ℕ → HttpServer → HttpServer
with_ports rc ports s = record s {
  status = if rc then initialized else initializing;
  listen_threads = s.listen_threads ++ map listening ports;
}

stopped_early :
    (binds : ℕ → Bool) (ports : List ℕ) (s : HttpServer)
    → init_each binds ports false s ≡ (false, s)
unfolding init_each
stopped_early binds [] s = refl
stopped_early binds (port ∷ ports) s = stopped_early binds ports s

init_port-bound :
    (binds : ℕ → Bool) (port : ℕ) (s : HttpServer)
    → binds port ≡ true
    → init_port binds port s ≡ (
      true,
      record s { status = initialized; listen_threads = s.listen_threads ++ listening port ∷ [] },
    )
unfolding init_port listen
init_port-bound binds port s e = rw e refl

init_port-refused :
    (binds : ℕ → Bool) (port : ℕ) (s : HttpServer)
    → binds port ≡ false
    → init_port binds port s ≡ (false, record s { status = initializing })
unfolding init_port listen
init_port-refused binds port s e = rw e refl

init_each-bound :
    (binds : ℕ → Bool) (ports : List ℕ) (s : HttpServer)
    → settled (init_each binds ports true s)
      ≡ (all_bound binds ports, with_ports (all_bound binds ports) (bound binds ports) s)
unfolding init_each
init_each-bound binds [] s =
    ap (λ ts. (true, record s { status = initialized; listen_threads = ts }))
      (sym (append-nil s.listen_threads))
init_each-bound binds (port ∷ ports) s = elim (Bool-cases (binds port)) [
  | inl e ↦
      ap (λ r. settled (init_each binds ports r.0 r.1)) (init_port-bound binds port s e)
      ∙ init_each-bound binds ports (record s {
        status = initialized;
        listen_threads = s.listen_threads ++ listening port ∷ [];
      })
      ∙ ap
          (λ ts. (
            all_bound binds ports,
            record s {
              status = if all_bound binds ports then initialized else initializing;
              listen_threads = ts;
            },
          ))
          (append_assoc s.listen_threads (listening port ∷ []) (map listening (bound binds ports)))
      ∙ sym (rw e refl)
  | inr e ↦
      ap (λ r. settled (init_each binds ports r.0 r.1)) (init_port-refused binds port s e)
      ∙ ap settled (stopped_early binds ports (record s { status = initializing }))
      ∙ ap (λ ts. (false, record s { status = initializing; listen_threads = ts }))
          (sym (append-nil s.listen_threads))
      ∙ sym (rw e refl)
]

parsed : (p : ℕ) → p < 10 ^ 20 → atoi (to_string p) ≡ pos p
parsed p h = ap atoi (sym (append-nil (to_string p))) ∙ atoi-to_string p [] h refl

-- A port that can be written
abbrev pub IsPort : ℕ → Type 0
IsPort p = (0 < p) × (p < 2 ^ 16)

with_port-suc : (p : ℕ) (ports : List ℕ) → 0 < p → with_port (pos p) (some ports) ≡ some (p ∷ ports)
with_port-suc zero ports h = absurd (omega arith)
with_port-suc (suc p) ports h = refl

numbers : (ps : List ℕ) → All IsPort ps → port_numbers (map to_string ps) ≡ some ps
unfolding port_numbers
numbers [] h = refl
numbers (p ∷ ps) ((a, b), h) =
    ap₂ with_port (parsed p (omega arith)) (numbers ps h) ∙ with_port-suc p ps a

no_commas : (ps : List ℕ) → All (Without b',') (map to_string ps)
no_commas [] = tt
no_commas (p ∷ ps) = (has-to_string b',' p refl, no_commas ps)

not_empty : (p : ℕ) (ps : List ℕ) → join b',' (map to_string (p ∷ ps)) ≢ []
not_empty p [] h =
    let (c, t, e) = to_string-head p in omega (arith, ap (length {0}) h, ap (length {0}) e)
not_empty p (q ∷ ps) h =
    let rest : List ℕ = b',' ∷ join b',' (map to_string (q ∷ ps)) in
    omega (arith, ap (length {0}) h, length-append (to_string p) rest)

-- A server that is told its ports by a text in decimal, with commas between them, listens at them in
-- order up to the first one that cannot be bound, and Init tells whether that was all of them.
pub init-ports :
    (binds : ℕ → Bool) (p : ℕ) (ps : List ℕ) (s : HttpServer)
    → All IsPort (p ∷ ps)
    → init binds (join b',' (map to_string (p ∷ ps))) s
      ≡ (all_bound binds (p ∷ ps), with_ports (all_bound binds (p ∷ ps)) (bound binds (p ∷ ps)) s)
unfolding init init_ports
init-ports binds p ps s h =
    ap (λ o. if_ports binds o (record s { status = initializing }))
      (ap port_numbers (
          string_split-join b',' (to_string p) (map to_string ps) (no_commas (p ∷ ps))
            (not_empty p ps))
        ∙ numbers (p ∷ ps) h)
    ∙ init_each-bound binds (p ∷ ps) (record s { status = initializing })
