-- ===== src/Ice/Connection/Silence.antt =====
-- A peer that does not answer: the connection of src/ice/ice_connection.cpp is given up.
use xrtc_server.Base.{
  ℕ, zero, suc, ◌+◌, ◌≤◌, ◌<◌, ◌≡◌, refl, ◌⊎◌, inl, inr, List, [], ◌∷◌, ◌++◌, Option, none, some,
  length, get_elem?, ◌==◌, All, arith, Bool-cases, sym, ◌∙◌, if_keep, subst,
}
use mathlib.Core.List.{append-nil, append_assoc}
use xrtc_server.Base.Int.{pos_part}
use xrtc_server.Ice.Connection.{
  IceConnection, SentPing, GetNextMovingAverage, Survival, rank, int32, update_state, set_state,
  ping, receive_data, receive_ping, maybe_set_remote_ice_params, on_request_error_response,
  is_recoverable, fail_and_destroy, failed, connection_destroy,
}
use xrtc_server.Ice.Connection.Updates.{
  destroyed_iff, update_state-survivor, Failing, patience, Unresponsive,
}
use xrtc_server.Ice.Connection.Histories.{
  Event, pinged, responded, error_responded, updated, got_data, got_ping, got_params, step, run,
}

-- The event is no response to a ping that was sent.
abbrev pub Unanswering : Event → Type 0
Unanswering (pinged id now) = Unit {0}
Unanswering (responded rtt now) = ⊥
Unanswering (error_responded code) = Unit {0}
Unanswering (updated now) = Unit {0}
Unanswering (got_data now) = Unit {0}
Unanswering (got_ping now) = Unit {0}
Unanswering (got_params ufrag pwd) = Unit {0}

-- The pings among the events.
abbrev pub pings_of : List Event → List SentPing
pings_of [] = []
pings_of (pinged id now ∷ es) = record { id = id; sent_time = now } ∷ pings_of es
pings_of (responded rtt now ∷ es) = pings_of es
pings_of (error_responded code ∷ es) = pings_of es
pings_of (updated now ∷ es) = pings_of es
pings_of (got_data now ∷ es) = pings_of es
pings_of (got_ping now ∷ es) = pings_of es
pings_of (got_params ufrag pwd ∷ es) = pings_of es

-- The connection is gone, or waits for an answer to these pings and has not timed out.
abbrev pub Awaits : Option IceConnection → List SentPing → Type 0
Awaits none pings = Unit {0}
Awaits (some c) pings = (c.pings_since_last_response ≡ pings) × (rank c.write_state ≤ 2)

abbrev ping_of : Event → List SentPing
ping_of e = pings_of (e ∷ [])

step-Awaits :
    (average : GetNextMovingAverage) (c : IceConnection) (e : Event)
    → Unanswering e
    → rank c.write_state ≤ 2
    → Awaits (step average c e).0 (c.pings_since_last_response ++ ping_of e)
unfolding step ping set_state receive_data receive_ping maybe_set_remote_ice_params
    on_request_error_response fail_and_destroy
step-Awaits average c (pinged id now) u h = (refl, h)
step-Awaits average c (responded rtt now) u h = absurd u
step-Awaits average c (error_responded code) u h =
    if_keep (λ (s : Survival). Awaits s.0 (c.pings_since_last_response ++ [])) (is_recoverable code)
      (some c, []) (none, connection_destroy (set_state c failed) ∷ []) (sym (append-nil _), h) tt
step-Awaits average c (updated now) u h = survives (update_state c now).0 refl
  where
    survives :
        (o : Option IceConnection)
        → (update_state c now).0 ≡ o
        → Awaits o (c.pings_since_last_response ++ [])
    survives none e = tt
    survives (some d) e = elim (update_state-survivor c d now e) [
      | inl (w, p) ↦ rw p (sym (append-nil _), omega arith)
      | inr (w, p) ↦ rw p (sym (append-nil _), h)
    ]
step-Awaits average c (got_data now) u h = (sym (append-nil _), h)
step-Awaits average c (got_ping now) u h = (sym (append-nil _), h)
step-Awaits average c (got_params ufrag pwd) u h =
    if_keep (λ (d : IceConnection). Awaits (some d) (c.pings_since_last_response ++ [])) _
      (record c { remote_password = pwd }) c (sym (append-nil _), h) (sym (append-nil _), h)

pings_of-∷ : (e : Event) (es : List Event) → pings_of (e ∷ es) ≡ ping_of e ++ pings_of es
pings_of-∷ (pinged id now) es = refl
pings_of-∷ (responded rtt now) es = refl
pings_of-∷ (error_responded code) es = refl
pings_of-∷ (updated now) es = refl
pings_of-∷ (got_data now) es = refl
pings_of-∷ (got_ping now) es = refl
pings_of-∷ (got_params ufrag pwd) es = refl

run-Awaits :
    (average : GetNextMovingAverage) (o : Option IceConnection) (es : List Event)
    (pings : List SentPing)
    → All Unanswering es
    → Awaits o pings
    → Awaits (run average o es) (pings ++ pings_of es)
unfolding run
run-Awaits average none es pings u h = tt
run-Awaits average (some c) [] pings u h = rw (append-nil pings) h
run-Awaits average (some c) (e ∷ es) pings u h =
    let now = step-Awaits average c e u.0 h.1 in
    rw (pings_of-∷ e es) (
      subst (λ (l : List SentPing). Awaits (run average (step average c e).0 es) l)
        (append_assoc pings (ping_of e) (pings_of es))
        (run-Awaits average (step average c e).0 es (pings ++ ping_of e) u.1
          (subst (λ (l : List SentPing). Awaits (step average c e).0 (l ++ ping_of e)) h.0 now)))

int32-le : (n : ℕ) → pos_part (int32 n) ≤ n
unfolding int32
int32-le n = ground arith

-- A ping of the list was sent at this time at the latest.
abbrev pub SentBy : ℕ → SentPing → Type 0
SentBy t p = p.sent_time ≤ t

at_of_length :
    (t : ℕ) (l : List SentPing) (n : ℕ)
    → All (SentBy t) l
    → n < length l
    → (p : SentPing) × (get_elem? l n ≡ some p) × SentBy t p
at_of_length t [] n a h = absurd (omega arith)
at_of_length t (x ∷ xs) zero a h = (x, refl, a.0)
at_of_length t (x ∷ xs) (suc n) a h = at_of_length t xs n a.1 (omega arith)

update-destroys :
    (c : IceConnection) (t now : ℕ)
    → rank c.write_state ≤ 2
    → All (SentBy t) c.pings_since_last_response
    → 5 ≤ length c.pings_since_last_response
    → t + 60000 < now
    → (update_state c now).0 ≡ none
update-destroys c t now r a h late =
    let (p, pe, pt) = at_of_length t c.pings_since_last_response 0 a (omega arith) in
    let (q, qe, qt) = at_of_length t c.pings_since_last_response 4 a (omega arith) in
    let failing : Failing c now = (q, qe, omega (arith, int32-le (q.sent_time + patience c))) in
    let reached : (rank c.write_state ≡ 1) ⊎ (rank c.write_state ≡ 2) ⊎ Unresponsive c now =
      elim (Bool-cases (rank c.write_state == 0)) [
        | inl z ↦ inr (inr (ground arith, failing, (p, pe, omega arith)))
        | inr z ↦ elim (Bool-cases (rank c.write_state == 1)) [
          | inl o ↦ inl (ground arith)
          | inr o ↦ inr (inl (ground arith))
        ]
      ] in
    (destroyed_iff c now).1 (reached, (p, pe, omega arith))

run-append :
    (average : GetNextMovingAverage) (o : Option IceConnection) (es fs : List Event)
    → run average o (es ++ fs) ≡ run average (run average o es) fs
unfolding run
run-append average none es fs = refl
run-append average (some c) [] fs = refl
run-append average (some c) (e ∷ es) fs = run-append average (step average c e).0 es fs

last_update :
    (average : GetNextMovingAverage) (o : Option IceConnection) (pings : List SentPing) (t now : ℕ)
    → Awaits o pings
    → All (SentBy t) pings
    → 5 ≤ length pings
    → t + 60000 < now
    → run average o (updated now ∷ []) ≡ none
unfolding run step
last_update average none pings t now h sent five late = refl
last_update average (some c) pings t now h sent five late =
    let gone =
      update-destroys c t now h.1 (subst (All (SentBy t)) (sym h.0) sent)
        (subst (λ (l : List SentPing). 5 ≤ length l) (sym h.0) five) late in
    subst (λ (o : Option IceConnection). run average o [] ≡ none) (sym gone) refl

-- A connection that has not timed out and gets no response, whatever else happens to it, is deleted at
-- the latest by an UpdateState that comes more than a minute after the last of at least five pings.
pub silent-destroyed :
    (average : GetNextMovingAverage) (c : IceConnection) (es : List Event) (t now : ℕ)
    → rank c.write_state ≤ 2
    → All Unanswering es
    → All (SentBy t) (c.pings_since_last_response ++ pings_of es)
    → 5 ≤ length (c.pings_since_last_response ++ pings_of es)
    → t + 60000 < now
    → run average (some c) (es ++ (updated now ∷ [])) ≡ none
silent-destroyed average c es t now r u sent five late =
    run-append average (some c) es (updated now ∷ [])
    ∙ last_update average (run average (some c) es) (c.pings_since_last_response ++ pings_of es) t
        now (run-Awaits average (some c) es c.pings_since_last_response u (refl, r)) sent five late
