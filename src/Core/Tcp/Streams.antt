-- ===== src/Core/Tcp/Streams.antt =====
-- What the transport relies on: a socket on which two byte streams run, one each way. Each call
-- moves some bytes, at least one where there is one to move, as Winsock documents for a blocking
-- stream socket whose connection stays up until the peer closes it.
use galculus.Common.{ℕ, suc, ◌≤◌, ◌<◌, ◌≡◌, true, some, [], ◌++◌, length, take, drop}
use galculus.Core.Wire.{Bytes}
use galculus.Core.Tcp.{Winsock}

pub record IsStream (w : Winsock) : Type 1 where
  -- The socket has taken `out`, and the peer sends `inp` before it closes.
  pub Holds : w.State → ℕ → Bytes → Bytes → Type 0
  pub sending :
      (s : w.State) (h : ℕ) (out inp bytes : Bytes)
      → Holds s h out inp
      → 0 < length bytes
      → (n : ℕ) × (((w.send s h bytes).1 ≡ some (suc n))
          × Holds (w.send s h bytes).0 h (out ++ take (suc n) bytes) inp)
  pub receiving :
      (s : w.State) (h : ℕ) (out inp : Bytes) (k : ℕ)
      → Holds s h out inp
      → 0 < length inp
      → 0 < k
      → (m : ℕ) × ((suc m ≤ k)
          × (((w.recv s h k).1 ≡ some (take (suc m) inp))
              × Holds (w.recv s h k).0 h out (drop (suc m) inp)))
  pub hanging_up :
      (s : w.State) (h : ℕ) (out : Bytes) (k : ℕ)
      → Holds s h out []
      → 0 < k
      → ((w.recv s h k).1 ≡ some []) × Holds (w.recv s h k).0 h out []
  pub selecting :
      (s : w.State) (h : ℕ) (out inp : Bytes)
      → Holds s h out inp
      → 0 < length inp
      → w.select s h ≡ true
