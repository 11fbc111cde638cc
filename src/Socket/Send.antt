-- ===== src/Socket/Send.antt =====
-- socket/socket.go: the sending loop, which gathers encoded messages and writes them together.
pub mod Order
pub mod Drained
use clustergo.Common.{
  ℕ, zero, suc, ◌+◌, ◌-◌, ◌≤◌, ◌<◌, ◌≡◌, ◌≢◌, refl, sym, ap, ◌∙◌, arith, Bool, true, false, ◌&&◌,
  ◌||◌, Option, none, some, List, [], ◌∷◌, ◌++◌, ltb, leb, ◌==◌, if◌then◌else◌, length,
  length-append, take, take-append_left, append_assoc, append-nil, Outcome, ok, err, panic,
  Bool-cases, inl, inr,
}

-- How a write ends: whole, or with an error (by its text) behind some of the bytes.
pub data Write : Type 0 where
  done : Write
  fell : ℕ → List ℕ → Write

-- What the loop has come to: it goes on, has closed the socket with the error of a write, has returned
-- behind the flush, or has panicked in `Encode`.
pub data SendState : Type 0 where
  running : SendState
  closed : List ℕ → SendState
  returned : SendState
  crashed : SendState

-- `written` are the bytes that the connection has taken.
pub record Sender : Type 0 where
  pub buf : List ℕ
  pub total : ℕ
  pub written : List ℕ
  pub state : SendState

abbrev pub new_sender : Sender
new_sender = record { buf = []; total = 0; written = []; state = running }

-- `s.write(buf)`, and the reset of the buffer behind it; `failed` is what an error comes to.
unfoldable pub write : (List ℕ → SendState) → Sender → Write → Sender
write failed s done = record s { written = s.written ++ s.buf; buf = []; total = 0 }
write failed s (fell n e) = record s { written = s.written ++ take n s.buf; state = failed e }

-- A step of the loop: a message from the queue, of which `queued` are left, before or behind `die`;
-- and the last write, where something is left to write.
pub data Turn (M : Type 0) : Type 0 where
  sends : M → ℕ → Write → Turn M
  flushes : M → Write → Turn M
  ends : Write → Turn M

-- `batchSendSize`, and `codec.Encode`: the new buffer, whatever else it returns.
module _ {E M : Type 0} (batch : ℕ) (encode : List ℕ → M → Outcome E (List ℕ × ℕ)) where
  -- The `sendReq` case of the select, behind which `queued` messages are left in the channel.
  unfoldable pub gather : Sender → ℕ → Write → Outcome E (List ℕ × ℕ) → Sender
  gather s queued w (ok (b, n)) =
      let s' = record s { buf = b; total = s.total + (length b - length s.buf) } in
      if leb batch s'.total || (ltb 0 s'.total && queued == 0) then write closed s' w else s'
  gather s queued w (err e) = record s { state = crashed }
  gather s queued w panic = record s { state = crashed }

  unfoldable pub send_one : Sender → M → ℕ → Write → Sender
  unfolding gather
  send_one s o queued w = gather s queued w (encode s.buf o)

  -- The `die` case: what is queued still goes out, in batches, and an error ends the loop.
  unfoldable pub gather_dying : Sender → Write → Outcome E (List ℕ × ℕ) → Sender
  gather_dying s w (ok (b, n)) =
      let s' = record s { buf = b; total = s.total + (length b - length s.buf) } in
      if leb batch s'.total then write (λ e. returned) s' w else s'
  gather_dying s w (err e) = record s { state = crashed }
  gather_dying s w panic = record s { state = crashed }

  unfoldable pub finish : Sender → Write → Sender
  finish s w =
      let s' = if ltb 0 s.total then write (λ e. returned) s w else s in
      record s' { state = returned }

  unfoldable pub step_running : Sender → Turn M → Sender
  unfolding send_one
  step_running s (sends o queued w) = send_one s o queued w
  step_running s (flushes o w) = gather_dying s w (encode s.buf o)
  step_running s (ends w) = finish s w

  unfoldable pub step_in : SendState → Sender → Turn M → Sender
  step_in running s t = step_running s t
  step_in (closed e) s t = s
  step_in returned s t = s
  step_in crashed s t = s

  -- A loop that has ended takes no more steps.
  unfoldable pub step : Sender → Turn M → Sender
  unfolding step_in step_running
  step s t = step_in s.state s t

  unfoldable pub send_all : Sender → List (Turn M) → Sender
  send_all s [] = s
  send_all s (t ∷ ts) = send_all (step s t) ts
