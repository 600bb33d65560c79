-- ===== src/MarketData/Counted.antt =====
-- The counters of `poll` in src/market_data.cpp, as sums over the messages.
use nanosecond_trading_stack.Common.{
  suc, ℕ, ◌+◌, ◌-◌, ◌%◌, ◌<◌, ◌≡◌, refl, ◌∙◌, List, [], ◌∷◌, if◌then◌else◌, ◌==◌, u32_mod, u64_mod,
  arith, length,
}
use nanosecond_trading_stack.MarketData.{
  MdMsg, MdMsgType, quote, reference, other, MdReceiver, count_type, count_packet,
}

-- How many messages are of a type.
abbrev is_quote : MdMsgType → ℕ
is_quote quote = 1
is_quote reference = 0
is_quote (other _) = 0

abbrev is_reference : MdMsgType → ℕ
is_reference quote = 0
is_reference reference = 1
is_reference (other _) = 0

-- The fields are numbers of 64 and 32 bits.
pub record IsSized (r : MdReceiver) : Type 0 where
  pub quotes : r.quotes < u64_mod
  pub references : r.references < u64_mod
  pub drops : r.drops < u64_mod
  pub last_seq : r.last_seq < u32_mod

-- What one message adds to the lost ones.
abbrev gap : ℕ → MdReceiver → ℕ
gap seq r = if r.packets == 0 then 0 else (seq + u32_mod - (r.last_seq + 1) % u32_mod) % u32_mod

counted_drops :
    (seq : ℕ) (r : MdReceiver)
    → IsSized r
    → seq < u32_mod
    → (count_packet seq r).drops ≡ (r.drops + gap seq r) % u64_mod
unfolding count_packet
counted_drops seq r z small = ground (arith, z.drops, z.last_seq)

count_type-IsSized : (type : MdMsgType) (r : MdReceiver) → IsSized r → IsSized (count_type type r)
unfolding count_type
count_type-IsSized quote r z = record {
  quotes = omega arith;
  references = z.references;
  drops = z.drops;
  last_seq = z.last_seq;
}
count_type-IsSized reference r z = record {
  quotes = z.quotes;
  references = omega arith;
  drops = z.drops;
  last_seq = z.last_seq;
}
count_type-IsSized (other x) r z = z

-- What a message does to the counters.
pub count_type-adds :
    (type : MdMsgType) (r : MdReceiver)
    → IsSized r
    → let r' = count_type type r in
      (r'.quotes ≡ (r.quotes + is_quote type) % u64_mod)
      × (r'.references ≡ (r.references + is_reference type) % u64_mod)
      × (r'.drops ≡ r.drops)
      × (r'.packets ≡ r.packets)
      × (r'.last_seq ≡ r.last_seq)
      × (r'.is_open ≡ r.is_open)
unfolding count_type
count_type-adds quote r z = (refl, omega (arith, z.references), refl, refl, refl, refl)
count_type-adds reference r z = (omega (arith, z.quotes), refl, refl, refl, refl, refl)
count_type-adds (other x) r z =
    (omega (arith, z.quotes), omega (arith, z.references), refl, refl, refl, refl)

module _ {ℓ} {D : Type ℓ} where
  abbrev count_quotes : List (MdMsg D) → ℕ
  count_quotes [] = 0
  count_quotes (m ∷ ms) = is_quote m.header.type + count_quotes ms

  abbrev count_references : List (MdMsg D) → ℕ
  count_references [] = 0
  count_references (m ∷ ms) = is_reference m.header.type + count_references ms

  abbrev last_seq_of : ℕ → List (MdMsg D) → ℕ
  last_seq_of seq [] = seq
  last_seq_of seq (m ∷ ms) = last_seq_of m.header.sequence_num ms

  -- The numbers that are left out between one message and the next, from `seq` on.
  abbrev left_out : ℕ → List (MdMsg D) → ℕ
  left_out seq [] = 0
  left_out seq (m ∷ ms) =
      (m.header.sequence_num + u32_mod - (seq + 1) % u32_mod) % u32_mod
      + left_out m.header.sequence_num ms

  -- The first message of all has none before it.
  abbrev pub lost : MdReceiver → List (MdMsg D) → ℕ
  lost r [] = 0
  lost r (m ∷ ms) =
      if r.packets == 0 then left_out m.header.sequence_num ms else left_out r.last_seq (m ∷ ms)

  -- The counters of `r'` are those of `r` and what the messages add.
  pub record IsCounted (r r' : MdReceiver) (ms : List (MdMsg D)) : Type 0 where
    pub packets : r'.packets ≡ r.packets + length ms
    pub quotes : r'.quotes ≡ (r.quotes + count_quotes ms) % u64_mod
    pub references : r'.references ≡ (r.references + count_references ms) % u64_mod
    pub last_seq : r'.last_seq ≡ last_seq_of r.last_seq ms
    pub drops : r'.drops ≡ (r.drops + lost r ms) % u64_mod
    pub still_open : r'.is_open ≡ r.is_open

  abbrev pub SeqSized : List (MdMsg D) → Type 0
  SeqSized [] = Unit
  SeqSized (m ∷ ms) = (m.header.sequence_num < u32_mod) × SeqSized ms

  abbrev pub counted_one : MdMsg D → MdReceiver → MdReceiver
  counted_one m r = count_packet m.header.sequence_num (count_type m.header.type r)

  pub counted-IsSized :
      (m : MdMsg D) (r : MdReceiver)
      → IsSized r
      → m.header.sequence_num < u32_mod
      → IsSized (counted_one m r)
  unfolding count_packet
  counted-IsSized m r z small =
      let z' = count_type-IsSized m.header.type r z in
      record {
        quotes = z'.quotes;
        references = z'.references;
        drops = ground (arith, z'.drops);
        last_seq = small;
      }

  lost-started :
      (r : MdReceiver) (ms : List (MdMsg D)) → 0 < r.packets → lost r ms ≡ left_out r.last_seq ms
  lost-started r [] h = refl
  lost-started r (m ∷ ms) h = ground arith

  lost-next :
      (m : MdMsg D) (r : MdReceiver) (ms : List (MdMsg D))
      → lost r (m ∷ ms) ≡ gap m.header.sequence_num r + left_out m.header.sequence_num ms
  lost-next m r ms = ground arith

  pub IsCounted-step :
      (m : MdMsg D) (r r' : MdReceiver) (ms : List (MdMsg D))
      → IsSized r
      → m.header.sequence_num < u32_mod
      → r.packets + suc (length ms) < u64_mod
      → IsCounted (counted_one m r) r' ms
      → IsCounted r r' (m ∷ ms)
  unfolding count_packet
  IsCounted-step m r r' ms z small room c =
      let (q, f, dr, p, l, o) = count_type-adds m.header.type r z in
      let once =
        counted_drops m.header.sequence_num (count_type m.header.type r)
          (count_type-IsSized m.header.type r z) small in
      let first : gap m.header.sequence_num (count_type m.header.type r)
          ≡ gap m.header.sequence_num r =
        rw (p, l) refl in
      let later : lost (counted_one m r) ms ≡ left_out m.header.sequence_num ms =
        lost-started (counted_one m r) ms (omega (arith, p, room)) in
      record {
        packets = omega (arith, c.packets, p, room);
        quotes = omega (arith, c.quotes, q);
        references = omega (arith, c.references, f);
        last_seq = c.last_seq;
        drops = omega (arith, c.drops, once, dr, first, later, lost-next m r ms);
        still_open = c.still_open ∙ o;
      }

  pub IsCounted-none : (r : MdReceiver) → IsSized r → IsCounted r r []
  IsCounted-none r z = record {
    packets = omega arith;
    quotes = omega (arith, z.quotes);
    references = omega (arith, z.references);
    last_seq = refl;
    drops = omega (arith, z.drops);
    still_open = refl;
  }
