-- ===== src/Model/Batch/Charge.antt =====
-- The charges of the collections are exact, and a write batch of messages within their limits fits.
use walite.Base.{
  ℕ, ◌+◌, ◌*◌, ◌≤◌, ◌≡◌, ◌↔◌, List, [], ◌∷◌, length, All, ok, arith, String, >>=-eq-ok, ◌∙◌, ap,
}
use walite.Model.Message.{checked_byte_sum, checked_byte_sum_from, max_int}
use walite.Model.Batch.{
  add_record, write_batch_byte_size, write_batch_byte_size_from, history_chunk_byte_size,
  history_chunk_byte_size_from, write_batch_record_bytes, max_write_batch_bytes,
  history_chunk_record_bytes, max_history_chunk_bytes, max_write_batch_messages,
}

-- Each message with its record.
abbrev pub charge : ℕ → List ℕ → ℕ
charge record_bytes [] = 0
charge record_bytes (n ∷ sizes) = n + record_bytes + charge record_bytes sizes

add_record-fits :
    (record_bytes limit : ℕ) (field : String) (total n : ℕ)
    → limit ≤ max_int
    → total + n + record_bytes ≤ limit
    → add_record record_bytes limit field total n ≡ ok (total + n + record_bytes)
unfolding add_record checked_byte_sum checked_byte_sum_from
add_record-fits record_bytes limit field total n small h = ground arith

add_record-exact :
    (record_bytes limit : ℕ) (field : String) (total n : ℕ) {next : ℕ}
    → add_record record_bytes limit field total n ≡ ok next
    → (next ≡ total + n + record_bytes) × (next ≤ limit)
unfolding add_record checked_byte_sum checked_byte_sum_from
add_record-exact record_bytes limit field total n e = (ground arith, ground arith)

write_batch-fits :
    (total : ℕ) (sizes : List ℕ)
    → total + charge write_batch_record_bytes sizes ≤ max_write_batch_bytes
    → write_batch_byte_size_from total sizes ≡ ok (total + charge write_batch_record_bytes sizes)
unfolding write_batch_byte_size_from
write_batch-fits total [] h = ap ok (omega arith)
write_batch-fits total (n ∷ sizes) h =
    rw
      (add_record-fits write_batch_record_bytes max_write_batch_bytes "write_batch" total n
        (omega arith) (omega arith))
      (write_batch-fits (total + n + write_batch_record_bytes) sizes (omega arith)
        ∙ ap ok (omega arith))

charge-le :
    (sizes : List ℕ)
    → All (λ n. n ≤ 24768) sizes
    → charge write_batch_record_bytes sizes ≤ 24800 * length sizes
charge-le [] h = omega arith
charge-le (n ∷ sizes) h = omega (arith, h.0, charge-le sizes h.1)

-- For at most 50 messages of at most 24,768 bytes each the charge of a write batch is never
-- refused, and is the sum of their sizes with 32 bytes for each.
pub write_batch_byte_size-fits :
    (sizes : List ℕ)
    → length sizes ≤ max_write_batch_messages
    → All (λ n. n ≤ 24768) sizes
    → write_batch_byte_size sizes ≡ ok (charge write_batch_record_bytes sizes)
unfolding write_batch_byte_size
write_batch_byte_size-fits sizes few small =
    write_batch-fits 0 sizes (omega (arith, charge-le sizes small)) ∙ ap ok (omega arith)

history_chunk-fits :
    (total : ℕ) (sizes : List ℕ)
    → total + charge history_chunk_record_bytes sizes ≤ max_history_chunk_bytes
    → history_chunk_byte_size_from total sizes
      ≡ ok (total + charge history_chunk_record_bytes sizes)
unfolding history_chunk_byte_size_from
history_chunk-fits total [] h = ap ok (omega arith)
history_chunk-fits total (n ∷ sizes) h =
    rw
      (add_record-fits history_chunk_record_bytes max_history_chunk_bytes "history_chunk" total n
        (omega arith) (omega arith))
      (history_chunk-fits (total + n + history_chunk_record_bytes) sizes (omega arith)
        ∙ ap ok (omega arith))

history_chunk-exact :
    (total : ℕ) (sizes : List ℕ) {n : ℕ}
    → total ≤ max_history_chunk_bytes
    → history_chunk_byte_size_from total sizes ≡ ok n
    → (n ≡ total + charge history_chunk_record_bytes sizes) × (n ≤ max_history_chunk_bytes)
unfolding history_chunk_byte_size_from
history_chunk-exact total [] h e = (ground arith, ground arith)
history_chunk-exact total (b ∷ sizes) {n} h e =
    let (next, added, rest) =
      >>=-eq-ok
        (add_record history_chunk_record_bytes max_history_chunk_bytes "history_chunk" total b) _
        e in
    let (same, small) =
      add_record-exact history_chunk_record_bytes max_history_chunk_bytes "history_chunk" total b
        added in
    let (exact, within) = history_chunk-exact next sizes small rest in (omega arith, within)

-- The charge of a history chunk is n exactly if n is the sum of the sizes with 32 bytes for each,
-- and is within 131,072 bytes.
pub history_chunk_byte_size_iff :
    (sizes : List ℕ) (n : ℕ)
    → (history_chunk_byte_size sizes ≡ ok n)
      ↔ ((n ≡ charge history_chunk_record_bytes sizes) × (n ≤ max_history_chunk_bytes))
unfolding history_chunk_byte_size
history_chunk_byte_size_iff sizes n = (
  λ e. let (same, small) = history_chunk-exact 0 sizes (omega arith) e in (omega arith, small),
  λ h. history_chunk-fits 0 sizes (omega arith) ∙ ap ok (omega arith),
)
