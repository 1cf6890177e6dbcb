-- ===== src/Tests/Network.antt =====
-- A connection that moves a byte at a time, a process with sockets, and a clock, for the TCP
-- transport, the remote model and the demo's server.
mod Remote
mod Meeting
mod Agent
use Prim.Native.String.{String}
use mathlib.Core.Path.{subst}
use galculus.Common.{
  ℕ, zero, suc, ◌+◌, ◌-◌, ◌%◌, ◌*◌, ◌^◌, ◌≤◌, ◌<◌, ◌≡◌, ◌≢◌, refl, sym, ap, ◌∙◌, arith, Bool, true,
  false, Option, none, some, List, [], ◌∷◌, ◌++◌, append-nil, length, take, drop, codes, ltb,
  if◌then◌else◌, All, ◌&&◌,
}
use galculus.Common.Exceptions.{ok}
use galculus.Core.Wire.{Bytes, IsBytes}
use galculus.Core.Tcp
use galculus.Core.Tcp.{Winsock, TcpByteTransport, receive_bytes, resize}
use galculus.Core.Tcp.Streams.{IsStream}
use galculus.Core.Tcp.Frames.{IsOpen, receive_bytes-encode, receive_bytes_cut}
use galculus.Core.Tcp.Wrap.{receive_bytes_wraps}
use galculus.Core.Tcp.Handles.{IsTable, without, held}
use galculus.Core.Tcp.Messages.{IsCarried}
use galculus.Core.Tcp.Order.{frames, sent_all, got_all, got_all-sent_all}
use galculus.Core.Message.{Message}
use galculus.Core.Protocol.Truncated.{length-encode as length-encode_packet}
use galculus.Core.Frame
use galculus.Core.Frame.Sound.{length-encode}
use galculus.Core.Frame.RoundTrip.{header}
use galculus.Llm.{user, GenerationConfig, Prompt, Clock}

-- What went out, and what comes in.
abbrev one_out : Bytes × Bytes → Bytes → (Bytes × Bytes) × Option ℕ
one_out s [] = (s, some 0)
one_out s (b ∷ more) = ((s.0 ++ b ∷ [], s.1), some 1)

abbrev one_in : ℕ → Bytes × Bytes → (Bytes × Bytes) × Option Bytes
one_in zero s = (s, some [])
one_in (suc k) (out, []) = ((out, []), some [])
one_in (suc k) (out, b ∷ more) = ((out, more), some (b ∷ []))

abbrev readable : Bytes → Bool
readable [] = false
readable (b ∷ more) = true

abbrev slow : Winsock
slow = record {
  State = Bytes × Bytes;
  Address = Bytes;
  socket = λ s. (s, some 5);
  inet_pton = some;
  connect = λ s h address port. (s, true);
  bind = λ s h port. (s, true);
  listen = λ s h backlog. (s, true);
  accept = λ s h. (s, some 6);
  closesocket = λ s h. s;
  send = λ s h bytes. one_out s bytes;
  recv = λ s h k. one_in k s;
  select = λ s h. readable s.1;
}

slow_sending :
    (s : Bytes × Bytes) (out inp bytes : Bytes)
    → s ≡ (out, inp)
    → 0 < length bytes
    → (n : ℕ) × (((one_out s bytes).1 ≡ some (suc n))
        × ((one_out s bytes).0 ≡ (out ++ take (suc n) bytes, inp)))
slow_sending s out inp [] e h = elim h [ ]
slow_sending s out inp (b ∷ more) e h =
    (0, (refl, ap (λ (x : Bytes × Bytes). (x.0 ++ b ∷ [], x.1)) e))

slow_receiving :
    (s : Bytes × Bytes) (out inp : Bytes) (k : ℕ)
    → s ≡ (out, inp)
    → 0 < length inp
    → 0 < k
    → (m : ℕ) × ((suc m ≤ k)
        × (((one_in k s).1 ≡ some (take (suc m) inp)) × ((one_in k s).0 ≡ (out, drop (suc m) inp))))
slow_receiving s out [] k e h pos = elim h [ ]
slow_receiving s out (b ∷ more) zero e h pos = elim pos [ ]
slow_receiving s out (b ∷ more) (suc k) e h pos = rw e (0, (omega arith, (refl, refl)))

slow_hanging_up :
    (s : Bytes × Bytes) (out : Bytes) (k : ℕ)
    → s ≡ (out, [])
    → 0 < k
    → ((one_in k s).1 ≡ some []) × ((one_in k s).0 ≡ (out, []))
slow_hanging_up s out zero e h = elim h [ ]
slow_hanging_up s out (suc k) e h = rw e (refl, refl)

slow_selecting :
    (s : Bytes × Bytes) (out inp : Bytes) → s ≡ (out, inp) → 0 < length inp → readable s.1 ≡ true
slow_selecting s out [] e h = elim h [ ]
slow_selecting s out (b ∷ more) e h = rw e refl

abbrev slow-IsStream : IsStream slow
slow-IsStream = record {
  Holds = λ s h out inp. s ≡ (out, inp);
  sending = λ s h out inp bytes v more. slow_sending s out inp bytes v more;
  receiving = λ s h out inp k v more pos. slow_receiving s out inp k v more pos;
  hanging_up = λ s h out k v pos. slow_hanging_up s out k v pos;
  selecting = λ s h out inp v more. slow_selecting s out inp v more;
}

abbrev three : Bytes
three = 1 ∷ 2 ∷ 3 ∷ []

abbrev slow_with : Bytes → TcpByteTransport slow
slow_with inp = record { sockets = ([], inp); socket_handle = 5 }

abbrev note : ℕ → Message
note id = record {
  id = id;
  type = 0;
  source = [];
  target = codes "b";
  event = record { name = []; payload = three };
}

note-IsCarried : (id : ℕ) → id < 9 → IsCarried (note id)
note-IsCarried id h = record {
  valid = record {
    id_fits = omega arith;
    type_fits = omega arith;
    source_fits = (tt, omega arith);
    target_fits = ((omega arith, tt), omega arith);
    name_fits = (tt, omega arith);
    payload_fits = ((omega arith, (omega arith, (omega arith, tt))), omega arith);
  };
  fits = omega (arith, length-encode_packet (note id));
}

abbrev notes : List Message
notes = note 3 ∷ note 4 ∷ []

got_all-sent_all_example :
    ((sent_all slow (slow_with []) notes).1 ≡ true)
    × (IsOpen slow slow-IsStream (sent_all slow (slow_with []) notes).0 (frames notes) []
        × (got_all slow (slow_with (frames notes ++ 9 ∷ [])) 2
            ≡ some (note 3) ∷ some (note 4) ∷ []))
got_all-sent_all_example =
    got_all-sent_all slow slow slow-IsStream slow-IsStream (slow_with [])
      (slow_with (frames notes ++ 9 ∷ [])) notes [] [] (9 ∷ [])
      (note-IsCarried 3 (omega arith), (note-IsCarried 4 (omega arith), tt)) ((λ e. cc), refl)
      ((λ e. cc), refl)

receive_bytes_cut_example : (receive_bytes slow (slow_with (take 14 (Frame.encode three)))).1 ≡ none
receive_bytes_cut_example =
    receive_bytes_cut slow slow-IsStream (slow_with (take 14 (Frame.encode three))) three [] 14
      ((λ e. cc), refl) (omega arith) (omega (arith, length-encode three (omega arith)))

abbrev widest : ℕ
widest = 2 ^ 32 - 4

receive_bytes_wraps_example :
    ((receive_bytes slow (slow_with (header widest ++ three))).1
      ≡ some (resize ((8 + (widest + 4) % 2 ^ 32) % 2 ^ 32) (header widest)))
    × IsOpen slow slow-IsStream (receive_bytes slow (slow_with (header widest ++ three))).0 [] three
receive_bytes_wraps_example =
    receive_bytes_wraps slow (slow_with (header widest ++ three)) slow-IsStream widest three []
      ((λ e. cc), refl) (omega arith) (omega arith)

-- A process whose sockets are numbered upwards; its peer closes every connection at once.
abbrev total : List ℕ → ℕ
total [] = 0
total (h ∷ rest) = h + total rest

abbrev give_socket : List ℕ → List ℕ × Option ℕ
give_socket s = (suc (total s) ∷ s, some (suc (total s)))

abbrev process : Winsock
process = record {
  State = List ℕ;
  Address = Bytes;
  socket = give_socket;
  inet_pton = some;
  connect = λ s h address port. (s, true);
  bind = λ s h port. (s, true);
  listen = λ s h backlog. (s, true);
  accept = λ s h. give_socket s;
  closesocket = λ s h. without h s;
  send = λ s h bytes. (s, some (length bytes));
  recv = λ s h k. (s, some []);
  select = λ s h. true;
}

total_bounds : (n : ℕ) (s : List ℕ) → total s ≤ n → All (λ x. suc n ≢ x) s
total_bounds n [] h = tt
total_bounds n (x ∷ rest) h = ((λ e. omega (arith, e)), total_bounds n rest (omega arith))

never : (a : ℕ) → ◌≡◌ {A = Option ℕ} (some a) none → ⊥
never a e = cc

same : (a b : ℕ) → ◌≡◌ {A = Option ℕ} (some a) (some b) → a ≡ b
same a b e = cc

given : (a b : ℕ) (s : List ℕ) → ◌≡◌ {A = Option ℕ} (some a) (some b) → a ∷ s ≡ b ∷ s
given a b s e = ap (λ (x : ℕ). x ∷ s) (same a b e)

above :
    (a b : ℕ) (s : List ℕ)
    → ◌≡◌ {A = Option ℕ} (some a) (some b)
    → All (λ x. a ≢ x) s
    → All (λ x. b ≢ x) s
above a b s e h = subst (λ (x : ℕ). All (λ y. x ≢ y) s) (same a b e) h

abbrev process-IsTable : IsTable process
process-IsTable = record {
  in_use = λ s. s;
  socket_none = λ s e. absurd (never (suc (total s)) e);
  socket_some = λ s h e. given (suc (total s)) h s e;
  accept_none = λ s l e. absurd (never (suc (total s)) e);
  accept_some = λ s l h e. (
    given (suc (total s)) h s e,
    above (suc (total s)) h s e (total_bounds (total s) s (omega arith)),
  );
  connect_same = λ s h a p. refl;
  bind_same = λ s h p. refl;
  listen_same = λ s h k. refl;
  send_same = λ s h bytes. refl;
  recv_same = λ s h k. refl;
  closesocket_without = λ s h. refl;
}
