-- ===== src/Core/Tcp/Loops.antt =====
-- The loops `send_all` and `recv_all` over sockets that move a part of the bytes at each call.
use mathlib.Core.Path.{subst}
use galculus.Common.{
  ℕ, zero, suc, ◌+◌, ◌-◌, ◌≤◌, ◌<◌, ◌≡◌, refl, sym, ap, ◌∙◌, arith, true, ltb, lt→ltb, ltb-false,
  ltb→lt, Bool-cases, inl, inr, none, some, [], ◌∷◌, ◌++◌, length, length-append, length-drop,
  length-take, take, drop, take_all, take-add, take-append-drop, append_assoc, append-nil,
}
use galculus.Common.Slices.{take-append_left, drop-append_left, take-long}
use galculus.Core.Wire.{Bytes}
use galculus.Core.Tcp.{Winsock, send_loop, send_all, recv_loop, recv_all}
use galculus.Core.Tcp.Streams.{IsStream}

-- The bytes that a round offers.
rest_lem : (n : ℕ) (xs : Bytes) → take (length xs - n) (drop n xs) ≡ drop n xs
rest_lem n xs = ap (λ (t : ℕ). take t (drop n xs)) (sym (length-drop n xs)) ∙ take_all (drop n xs)

module _ (w : Winsock) (c : IsStream w) where
  send_loop_lem :
      (rounds : ℕ) (s : w.State) (h : ℕ) (bytes : Bytes) (total : ℕ) (out inp : Bytes)
      → c.Holds s h (out ++ take total bytes) inp
      → length bytes ≤ rounds + total
      → ((send_loop w rounds s h bytes (length bytes) total).1 ≡ true)
        × c.Holds (send_loop w rounds s h bytes (length bytes) total).0 h (out ++ bytes) inp
  unfolding send_loop
  send_loop_lem zero s h bytes total out inp v enough = (
    refl,
    subst (λ (t : Bytes). c.Holds s h (out ++ t) inp) (take-long total bytes (omega arith)) v,
  )
  send_loop_lem (suc rounds) s h bytes total out inp v enough =
      elim (Bool-cases (ltb total (length bytes))) [
        | inl more ↦
            let offered = take (length bytes - total) (drop total bytes) in
            let (n, (e, v')) = c.sending s h (out ++ take total bytes) inp offered v (
              omega (
                arith,
                ltb→lt total (length bytes) more,
                ap length (rest_lem total bytes),
                length-drop total bytes,
              )) in
            let step : out ++ take total bytes ++ take (suc n) offered
                ≡ out ++ take (total + suc n) bytes =
              ap (λ (t : Bytes). out ++ take total bytes ++ take (suc n) t) (rest_lem total bytes)
              ∙ append_assoc out (take total bytes) _
              ∙ ap (◌++◌ out) (sym (take-add total (suc n) bytes)) in
            rw (more, e)
              (send_loop_lem rounds (w.send s h offered).0 h bytes (total + suc n) out inp
                (subst (λ (t : Bytes). c.Holds (w.send s h offered).0 h t inp) step v')
                (omega arith))
        | inr done ↦ rw done (
          refl,
          subst (λ (t : Bytes). c.Holds s h (out ++ t) inp) (take-long total bytes (ground arith))
              v,
        )
      ]

  -- On a socket that is a stream, send_all succeeds and the peer is sent exactly the bytes, in order.
  pub send_all_lem :
      (s : w.State) (h : ℕ) (bytes out inp : Bytes)
      → c.Holds s h out inp
      → ((send_all w s h bytes (length bytes)).1 ≡ true)
        × c.Holds (send_all w s h bytes (length bytes)).0 h (out ++ bytes) inp
  unfolding send_all
  send_all_lem s h bytes out inp v =
      send_loop_lem (length bytes) s h bytes 0 out inp
        (subst (λ (t : Bytes). c.Holds s h t inp) (sym (append-nil out)) v) (omega arith)

  recv_loop_lem :
      (rounds : ℕ) (s : w.State) (h size : ℕ) (got wanted rest out : Bytes)
      → c.Holds s h out (wanted ++ rest)
      → length got + length wanted ≡ size
      → length wanted ≤ rounds
      → ((recv_loop w rounds s h size got).1 ≡ some (got ++ wanted))
        × c.Holds (recv_loop w rounds s h size got).0 h out rest
  unfolding recv_loop
  recv_loop_lem zero s h size got [] rest out v all enough = (ap some (sym (append-nil got)), v)
  recv_loop_lem zero s h size got (b ∷ wanted) rest out v all enough = elim enough [ ]
  recv_loop_lem (suc rounds) s h size got [] rest out v all enough =
      rw (ltb-false (length got) size (omega arith)) (ap some (sym (append-nil got)), v)
  recv_loop_lem (suc rounds) s h size got (b ∷ wanted) rest out v all enough =
      let (m, (few, (e, v'))) =
        c.receiving s h out (b ∷ wanted ++ rest) (size - length got) v (omega arith)
          (omega arith) in
      let fits : m ≤ length wanted = omega (arith, few, all) in
      let chunk = take-append_left m wanted rest fits in
      let left = drop-append_left m wanted rest fits in
      let again =
        recv_loop_lem rounds (w.recv s h (size - length got)).0 h size (got ++ b ∷ take m wanted)
          (drop m wanted) rest out
          (subst (λ (t : Bytes). c.Holds (w.recv s h (size - length got)).0 h out t) left v')
          (omega (
            arith,
            length-append got (b ∷ take m wanted),
            length-take m wanted,
            length-drop m wanted,
          ))
          (omega (arith, length-drop m wanted)) in
      let whole : got ++ b ∷ take m wanted ++ drop m wanted ≡ got ++ b ∷ wanted =
        append_assoc got (b ∷ take m wanted) (drop m wanted)
        ∙ ap (λ (t : Bytes). got ++ b ∷ t) (take-append-drop m wanted) in
      rw (lt→ltb (length got) size (omega arith), e, chunk) (again.0 ∙ ap some whole, again.1)

  -- On a socket that is a stream, recv_all of as many bytes as `wanted`, which arrive first, returns
  -- `wanted` and leaves what follows it.
  pub recv_all_lem :
      (s : w.State) (h : ℕ) (wanted rest out : Bytes)
      → c.Holds s h out (wanted ++ rest)
      → ((recv_all w s h (length wanted)).1 ≡ some wanted)
        × c.Holds (recv_all w s h (length wanted)).0 h out rest
  unfolding recv_all
  recv_all_lem s h wanted rest out v =
      recv_loop_lem (length wanted) s h (length wanted) [] wanted rest out v (omega arith)
        (omega arith)

  -- A stream that ends before the wanted size makes the loop of recv_all fail, where the rounds
  -- outnumber the bytes that arrive.
  recv_loop_short :
      (rounds : ℕ) (s : w.State) (h size : ℕ) (got inp out : Bytes)
      → c.Holds s h out inp
      → length got + length inp < size
      → length inp < rounds
      → (recv_loop w rounds s h size got).1 ≡ none
  unfolding recv_loop
  recv_loop_short zero s h size got inp out v short enough = elim enough [ ]
  recv_loop_short (suc rounds) s h size got [] out v short enough =
      rw
        (
          lt→ltb (length got) size (omega arith),
          (c.hanging_up s h out (size - length got) v (omega arith)).0,
        )
        refl
  recv_loop_short (suc rounds) s h size got (b ∷ inp) out v short enough =
      let (m, (few, (e, v'))) =
        c.receiving s h out (b ∷ inp) (size - length got) v (omega arith) (omega arith) in
      rw (lt→ltb (length got) size (omega arith), e)
        (recv_loop_short rounds (w.recv s h (size - length got)).0 h size (got ++ b ∷ take m inp)
          (drop m inp) out v'
          (omega (arith, length-append got (b ∷ take m inp), length-take m inp, length-drop m inp))
          (omega (arith, length-drop m inp)))

  pub recv_all_short :
      (s : w.State) (h size : ℕ) (inp out : Bytes)
      → c.Holds s h out inp
      → length inp < size
      → (recv_all w s h size).1 ≡ none
  unfolding recv_all
  recv_all_short s h size inp out v short =
      recv_loop_short size s h size [] inp out v (omega arith) (omega arith)
