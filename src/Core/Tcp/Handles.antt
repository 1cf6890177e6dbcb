-- ===== src/Core/Tcp/Handles.antt =====
-- Which sockets are open behind `connect_to`, `listen_once` and the destructor.
use mathlib.Core.Path.{subst}
use galculus.Common.{
  ℕ, ◌≡◌, ◌≢◌, ap, ◌∙◌, arith, Bool, true, false, ◌==◌, ==_iff, ==_self, Option, none, some,
  Option-cases, Bool-cases, inl, inr, List, [], ◌∷◌, All, if◌then◌else◌,
}
use galculus.Core.Wire.{Bytes}
use galculus.Core.Tcp.{
  Winsock, TcpByteTransport, close, connected, converted, client, connect_to, accepted, listening,
  bound, server, listen_once,
}

abbrev pub without : ℕ → List ℕ → List ℕ
without h [] = []
without h (x ∷ xs) = if x == h then xs else x ∷ without h xs

-- The sockets that the process holds, as Winsock documents them: `socket` and `accept` give out one
-- that is not in use, `closesocket` takes it back, and no other call changes them.
pub record IsTable (w : Winsock) : Type 1 where
  pub in_use : w.State → List ℕ
  pub socket_none : (s : w.State) → (w.socket s).1 ≡ none → in_use (w.socket s).0 ≡ in_use s
  pub socket_some :
      (s : w.State) (h : ℕ) → (w.socket s).1 ≡ some h → in_use (w.socket s).0 ≡ h ∷ in_use s
  pub accept_none :
      (s : w.State) (l : ℕ) → (w.accept s l).1 ≡ none → in_use (w.accept s l).0 ≡ in_use s
  pub accept_some :
      (s : w.State) (l h : ℕ)
      → (w.accept s l).1 ≡ some h
      → (in_use (w.accept s l).0 ≡ h ∷ in_use s) × All (λ x. h ≢ x) (in_use s)
  pub connect_same :
      (s : w.State) (h : ℕ) (a : w.Address) (p : ℕ) → in_use (w.connect s h a p).0 ≡ in_use s
  pub bind_same : (s : w.State) (h p : ℕ) → in_use (w.bind s h p).0 ≡ in_use s
  pub listen_same : (s : w.State) (h k : ℕ) → in_use (w.listen s h k).0 ≡ in_use s
  pub send_same : (s : w.State) (h : ℕ) (bytes : Bytes) → in_use (w.send s h bytes).0 ≡ in_use s
  pub recv_same : (s : w.State) (h k : ℕ) → in_use (w.recv s h k).0 ≡ in_use s
  pub closesocket_without :
      (s : w.State) (h : ℕ) → in_use (w.closesocket s h) ≡ without h (in_use s)

-- With a transport its socket, and otherwise none, is open besides the sockets that were.
abbrev pub held : Option ℕ → List ℕ → List ℕ
held none before = before
held (some h) before = h ∷ before

-- What a transport leaves open behind its destructor, which takes the handle 0 for a closed one.
abbrev pub leaked : Option ℕ → List ℕ → List ℕ
leaked none before = before
leaked (some h) before = if h == 0 then h ∷ before else before

without_self : (h : ℕ) (xs : List ℕ) → without h (h ∷ xs) ≡ xs
without_self h xs = ground (arith, ==_self h)

without-other : (l h : ℕ) (xs : List ℕ) → h ≢ l → without l (h ∷ l ∷ xs) ≡ h ∷ xs
without-other l h xs n = ground (arith, ==_self l, ==_iff h l)

module _ (w : Winsock) (o : IsTable w) where
  connected-in_use :
      (p : w.State × Bool) (h : ℕ) (before : List ℕ)
      → o.in_use p.0 ≡ h ∷ before
      → o.in_use (connected w p h).0 ≡ held (connected w p h).1 before
  unfolding connected
  connected-in_use (s, true) h before e = e
  connected-in_use (s, false) h before e =
      o.closesocket_without s h ∙ ap (without h) e ∙ without_self h before

  converted-in_use :
      (a : Option w.Address) (s : w.State) (h port : ℕ) (before : List ℕ)
      → o.in_use s ≡ h ∷ before
      → o.in_use (converted w a s h port).0 ≡ held (converted w a s h port).1 before
  unfolding converted
  converted-in_use none s h port before e =
      o.closesocket_without s h ∙ ap (without h) e ∙ without_self h before
  converted-in_use (some address) s h port before e =
      connected-in_use (w.connect s h address port) h before (o.connect_same s h address port ∙ e)

  client-in_use :
      (p : w.State × Option ℕ) (host : Bytes) (port : ℕ) (before : List ℕ)
      → o.in_use p.0 ≡ held p.1 before
      → o.in_use (client w p host port).0 ≡ held (client w p host port).1 before
  unfolding client
  client-in_use (s, none) host port before e = e
  client-in_use (s, some h) host port before e =
      converted-in_use (w.inet_pton host) s h port before e

  socket-in_use : (s : w.State) → o.in_use (w.socket s).0 ≡ held (w.socket s).1 (o.in_use s)
  socket-in_use s = elim (Option-cases (w.socket s).1) [
    | inl e ↦ rw e (o.socket_none s e)
    | inr (h, e) ↦ rw e (o.socket_some s h e)
  ]

  -- connect_to leaves in use the sockets that were, and the one it returns if it returns one.
  pub connect_to-in_use :
      (s : w.State) (host : Bytes) (port : ℕ)
      → o.in_use (connect_to w s host port).0 ≡ held (connect_to w s host port).1 (o.in_use s)
  unfolding connect_to
  connect_to-in_use s host port =
      client-in_use (w.socket s) host port (o.in_use s) (socket-in_use s)

  listening-in_use :
      (p : w.State × Bool) (l : ℕ) (before : List ℕ)
      → o.in_use p.0 ≡ l ∷ before
      → o.in_use (listening w p l).0 ≡ held (listening w p l).1 before
  unfolding listening accepted
  listening-in_use (s, false) l before e =
      o.closesocket_without s l ∙ ap (without l) e ∙ without_self l before
  listening-in_use (s, true) l before e = elim (Option-cases (w.accept s l).1) [
    | inl a ↦ rw a (
        o.closesocket_without (w.accept s l).0 l
        ∙ ap (without l) (o.accept_none s l a ∙ e)
        ∙ without_self l before)
    | inr (h, a) ↦
        let (now, fresh) = o.accept_some s l h a in
        let other : h ≢ l = (subst (All (λ (x : ℕ). h ≢ x)) e fresh).0 in
        rw a (
          o.closesocket_without (w.accept s l).0 l
          ∙ ap (without l) (now ∙ ap (◌∷◌ h) e)
          ∙ without-other l h before other)
  ]

  bound-in_use :
      (p : w.State × Bool) (l : ℕ) (before : List ℕ)
      → o.in_use p.0 ≡ l ∷ before
      → o.in_use (bound w p l).0 ≡ held (bound w p l).1 before
  unfolding bound
  bound-in_use (s, false) l before e =
      o.closesocket_without s l ∙ ap (without l) e ∙ without_self l before
  bound-in_use (s, true) l before e =
      listening-in_use (w.listen s l 1) l before (o.listen_same s l 1 ∙ e)

  server-in_use :
      (p : w.State × Option ℕ) (port : ℕ) (before : List ℕ)
      → o.in_use p.0 ≡ held p.1 before
      → o.in_use (server w p port).0 ≡ held (server w p port).1 before
  unfolding server
  server-in_use (s, none) port before e = e
  server-in_use (s, some l) port before e =
      bound-in_use (w.bind s l port) l before (o.bind_same s l port ∙ e)

  -- Over sockets that are handed out when not in use, listen_once leaves the accepted socket open
  -- besides those that were, and none when it fails.
  listen_once-in_use :
      (s : w.State) (port : ℕ)
      → o.in_use (listen_once w s port).0 ≡ held (listen_once w s port).1 (o.in_use s)
  unfolding listen_once
  listen_once-in_use s port = server-in_use (w.socket s) port (o.in_use s) (socket-in_use s)

  -- The destructor gives the socket of a transport back, unless its handle is 0.
  pub close-in_use :
      (t : TcpByteTransport w) (before : List ℕ)
      → o.in_use t.sockets ≡ t.socket_handle ∷ before
      → o.in_use (close w t) ≡ leaked (some t.socket_handle) before
  unfolding close
  close-in_use t before e = elim (Bool-cases (t.socket_handle == 0)) [
    | inl zero_handle ↦ rw zero_handle e
    | inr other ↦ rw other (
        o.closesocket_without t.sockets t.socket_handle
        ∙ ap (without t.socket_handle) e
        ∙ without_self t.socket_handle before)
  ]
