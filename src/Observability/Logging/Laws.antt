-- ===== src/Observability/Logging/Laws.antt =====
-- What the status writer records, against what the client is sent.
use service_scheduler.Prelude.{
  ℕ, ◌≤◌, ◌≡◌, refl, ◌∙◌, ◌⊎◌, true, false, List, [], ◌∷◌, Option, none, some, inl, inr, All,
}
use service_scheduler.Observability.Logging.{
  StatusWriter, Writer, WriterCall, body, header, new_status_writer, play, status_writer, write,
  write_header,
}

-- A writer that sends a status once, as net/http documents it: the first `WriteHeader` counts, a
-- `Write` before it sends 200, and statuses below 200 are not final.
pub record SendsOnce {W : Type 0} (writer : Writer W) (sent : W → Option ℕ) : Type 0 where
  pub header_first :
      (code : ℕ) (w : W)
      → 200 ≤ code
      → sent w ≡ none
      → sent (writer.write_header code w) ≡ some code
  pub header_later :
      (code status : ℕ) (w : W)
      → sent w ≡ some status
      → sent (writer.write_header code w) ≡ some status
  pub body_first : (n : ℕ) (w : W) → sent w ≡ none → sent (writer.write n w).1 ≡ some 200
  pub body_later :
      (n status : ℕ) (w : W) → sent w ≡ some status → sent (writer.write n w).1 ≡ some status

abbrev pub IsFinal : WriterCall → Type 0
IsFinal (header code) = 200 ≤ code
IsFinal (body count) = Unit

abbrev pub or_200 : Option ℕ → ℕ
or_200 none = 200
or_200 (some status) = status

module _ {W : Type 0} (writer : Writer W) (sent : W → Option ℕ) (once : SendsOnce writer sent) where
  -- Nothing is sent yet, or what is recorded was sent.
  abbrev Agrees : StatusWriter W → Type 0
  Agrees w =
      ((w.written ≡ false) × (sent w.inner ≡ none) × (w.status ≡ 200))
      ⊎ ((w.written ≡ true) × (sent w.inner ≡ some w.status))

  write_header-Agrees :
      (code : ℕ) (w : StatusWriter W) → 200 ≤ code → Agrees w → Agrees (write_header writer code w)
  unfolding write_header
  write_header-Agrees code w h (inl (a, b, c)) =
      inr (refl, once.header_first code w.inner h b ∙ rw a refl)
  write_header-Agrees code w h (inr (a, b)) =
      inr (refl, once.header_later code w.status w.inner b ∙ rw a refl)

  write-Agrees : (n : ℕ) (w : StatusWriter W) → Agrees w → Agrees (write writer n w)
  unfolding write
  write-Agrees n w (inl (a, b, c)) = inr (refl, once.body_first n w.inner b ∙ rw c refl)
  write-Agrees n w (inr (a, b)) = inr (refl, once.body_later n w.status w.inner b)

  play-Agrees :
      (calls : List WriterCall) (w : StatusWriter W)
      → All IsFinal calls
      → Agrees w
      → Agrees (play (status_writer writer) calls w)
  unfolding play write
  play-Agrees [] w f h = h
  play-Agrees (header code ∷ calls) w f h =
      play-Agrees calls (write_header writer code w) f.1 (write_header-Agrees code w f.0 h)
  play-Agrees (body n ∷ calls) w f h = play-Agrees calls (write writer n w) f.1 (write-Agrees n w h)

  -- Whatever a handler writes, with statuses from 200 on, the recorded status is the one that the
  -- client is sent, or 200 where nothing is sent.
  pub status-play :
      (calls : List WriterCall) (w : W)
      → All IsFinal calls
      → sent w ≡ none
      → (play (status_writer writer) calls (new_status_writer w)).status
        ≡ or_200 (sent (play (status_writer writer) calls (new_status_writer w)).inner)
  status-play calls w f h =
      recorded (play (status_writer writer) calls (new_status_writer w))
        (play-Agrees calls (new_status_writer w) f (inl (refl, h, refl)))
    where
      recorded : (v : StatusWriter W) → Agrees v → v.status ≡ or_200 (sent v.inner)
      recorded v (inl (a, b, c)) = rw (b, c) refl
      recorded v (inr (a, b)) = rw b refl

  -- Around a writer that sends once, a status writer sends once.
  pub status_writer-SendsOnce : SendsOnce (status_writer writer) (λ w. sent w.inner)
  unfolding write write_header
  status_writer-SendsOnce = record {
    header_first = λ code w f h. once.header_first code w.inner f h;
    header_later = λ code status w h. once.header_later code status w.inner h;
    body_first = λ n w h. once.body_first n w.inner h;
    body_later = λ n status w h. once.body_later n status w.inner h;
  }

-- A status writer passes every call on.
pub inner-play :
    {W : Type 0} (writer : Writer W) (calls : List WriterCall) (w : StatusWriter W)
    → (play (status_writer writer) calls w).inner ≡ play writer calls w.inner
unfolding play write write_header
inner-play writer [] w = refl
inner-play writer (header code ∷ calls) w = inner-play writer calls (write_header writer code w)
inner-play writer (body n ∷ calls) w = inner-play writer calls (write writer n w)
