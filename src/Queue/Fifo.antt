-- ===== src/Queue/Fifo.antt =====
-- What the queue of src/base/lock_free_queue.h promises: first in, first out.
use xrtc_server.Base.{◌≡◌, List, [], ◌∷◌, ◌++◌, sym, subst, ◌∙◌}
use xrtc_server.Queue.{Event, produced, consumed, found_empty}

module _ {ℓ} {A : Type ℓ} where
  -- The events are possible, one after the other, from these values to those: a value produced comes in
  -- at the end, a value consumed goes out at the front, and no value is missed.
  unfoldable pub Fifo : List A → List (Event A) → List A → Type ℓ
  Fifo q [] r = q ≡ r
  Fifo q (produced t ∷ es) r = Fifo (q ++ (t ∷ [])) es r
  Fifo q (consumed v ∷ es) r = (rest : List A) × (q ≡ v ∷ rest) × Fifo rest es r
  Fifo q (found_empty ∷ es) r = (q ≡ []) × Fifo q es r

  -- What is left is determined by what was done.
  pub Fifo-unique : (q r t : List A) (es : List (Event A)) → Fifo q es r → Fifo q es t → r ≡ t
  unfolding Fifo
  Fifo-unique q r t [] h k = sym h ∙ k
  Fifo-unique q r t (produced v ∷ es) h k = Fifo-unique (q ++ (v ∷ [])) r t es h k
  Fifo-unique q r t (consumed v ∷ es) (a, d, h) (b, e, k) =
      let same : b ≡ a = cc in Fifo-unique a r t es h (subst (λ (l : List A). Fifo l es t) same k)
  Fifo-unique q r t (found_empty ∷ es) (d, h) (e, k) = Fifo-unique q r t es h k

  pub Fifo-append :
      (q r t : List A) (es fs : List (Event A)) → Fifo q es r → Fifo r fs t → Fifo q (es ++ fs) t
  unfolding Fifo
  Fifo-append q r t [] fs h k = subst (λ (l : List A). Fifo l fs t) (sym h) k
  Fifo-append q r t (produced v ∷ es) fs h k = Fifo-append (q ++ (v ∷ [])) r t es fs h k
  Fifo-append q r t (consumed v ∷ es) fs (rest, e, h) k = (rest, e, Fifo-append rest r t es fs h k)
  Fifo-append q r t (found_empty ∷ es) fs (e, h) k = (e, Fifo-append q r t es fs h k)
