-- ===== src/Scheduler/Batches.antt =====
-- src/scheduler.js: the batches that a tick sends.
use web_resource_ledger.Prelude.{
  ℕ, zero, suc, ◌≤◌, ◌<◌, ◌≡◌, refl, ap, sym, ◌∙◌, List, [], ◌∷◌, ◌++◌, Bool, true, false, length,
  take, drop, All, Bool-cases, arith, length-take, length-drop, take-append-drop, ◌==◌,
  append_assoc, append-nil, inl, inr,
}
use web_resource_ledger.Scheduler.{Message, send_chunks}

pub concat_chunks : List (List Message) → List Message
concat_chunks [] = []
concat_chunks (chunk ∷ chunks) = chunk ++ concat_chunks chunks

-- A batch that the queue takes: not empty, at most 100 messages, and its `sendBatch` succeeded.
pub record IsSentBatch (sends : List Message → Bool) (chunk : List Message) : Type 0 where
  pub not_empty : 0 < length chunk
  pub small : length chunk ≤ 100
  pub was_sent : sends chunk ≡ true

empty_unless : (messages : List Message) → (0 < length messages → true ≡ false) → messages ≡ []
empty_unless [] h = refl
empty_unless (m ∷ messages) h = let impossible = h (omega arith) in absurd (ground arith)

module _ (sends : List Message → Bool) where
  -- What is sent is a first part of the messages, in order and without repetition, in batches of at
  -- most 100; what is left over is empty, or starts with a batch that could not be sent.
  pub record IsSending (messages : List Message) (chunks : List (List Message)) : Type 0 where
    pub unsent : List Message
    pub in_order : messages ≡ concat_chunks chunks ++ unsent
    pub batches : All (IsSentBatch sends) chunks
    pub stopped : 0 < length unsent → sends (take 100 unsent) ≡ false

  nothing_left : (messages : List Message) → length messages ≡ 0 → IsSending messages []
  unfolding concat_chunks
  nothing_left messages e = record {
    unsent = messages;
    in_order = refl;
    batches = tt;
    stopped = λ more. absurd (omega (arith, e));
  }

  next_batch :
      (messages : List Message) (chunks : List (List Message))
      → 0 < length messages
      → sends (take 100 messages) ≡ true
      → IsSending (drop 100 messages) chunks
      → IsSending messages (take 100 messages ∷ chunks)
  unfolding concat_chunks
  next_batch messages chunks some sent rest = record {
    unsent = rest.unsent;
    in_order =
        sym (take-append-drop 100 messages)
        ∙ ap (λ t. take 100 messages ++ t) rest.in_order
        ∙ sym (append_assoc (take 100 messages) (concat_chunks chunks) rest.unsent);
    batches = (
      record {
        not_empty = omega (arith, length-take {0} 100 messages);
        small = omega (arith, length-take {0} 100 messages);
        was_sent = sent;
      },
      rest.batches,
    );
    stopped = rest.stopped;
  }

  -- The batches of a tick are a sending of its messages; as much fuel as there are messages is enough.
  pub send_chunks-IsSending :
      (fuel : ℕ) (messages : List Message)
      → length messages ≤ fuel
      → IsSending messages (send_chunks sends fuel messages)
  unfolding send_chunks concat_chunks
  send_chunks-IsSending zero messages h = nothing_left messages (omega arith)
  send_chunks-IsSending (suc fuel) messages h = elim (Bool-cases (length messages == 0)) [
    | inl none_left ↦ rw none_left (nothing_left messages (ground arith))
    | inr some_left ↦
        let positive : 0 < length messages = ground arith in
        elim (Bool-cases (sends (take 100 messages))) [
          | inl sent ↦
              rw (some_left, sent)
                (next_batch messages _ positive sent (
                  send_chunks-IsSending fuel (drop 100 messages)
                    (omega (arith, length-drop {0} 100 messages))))
          | inr failed ↦
              rw (some_left, failed)
                (record {
                  unsent = messages;
                  in_order = refl;
                  batches = tt;
                  stopped = λ more. failed;
                })
        ]
  ]

  -- When no batch fails, every message is sent.
  pub all_sent :
      (messages : List Message)
      → ((chunk : List Message) → sends chunk ≡ true)
      → concat_chunks (send_chunks sends (length messages) messages) ≡ messages
  all_sent messages works =
      let sending = send_chunks-IsSending (length messages) messages (omega arith) in
      let fails = sending.stopped in
      let nothing : sending.unsent ≡ [] =
        empty_unless sending.unsent (λ more. sym (works (take 100 sending.unsent)) ∙ fails more) in
      sym (append-nil _)
      ∙ ap (λ t. concat_chunks (send_chunks sends (length messages) messages) ++ t) (sym nothing)
      ∙ sym sending.in_order
