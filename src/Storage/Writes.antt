-- ===== src/Storage/Writes.antt =====
-- A written chunk stands at its address, and a write moves no chunk that was written before.
use edrstore.Prelude.{
  ℕ, ◌+◌, ◌≤◌, ◌<◌, [], ◌++◌, none, some, Bool, true, Bytes, bytes_discrete, find, assign, ◌≡◌, ◌≢◌,
  refl, arith, length, take, slice, u64, ok, Option-cases, inl, inr, ◌∙◌, sym, ap,
  take_of_length-le, dec_le, find-assign_self, find-assign_ne, slice-append, slice-append_self,
  length-append, length-take,
}
use edrstore.Layout.{ChunkAddr, max_container_size}
use edrstore.Storage.{StorageCore, save_container, append_chunk, write_chunk}
use edrstore.Storage.Lru.{LruCache}
use edrstore.Storage.Chunks.{content_of_file, content_of_body, IsAt, IsStorage}

module _ {cap : ℕ} {L : Type 0} (lru : LruCache cap L) (addr : ChunkAddr) (buf : Bytes) (size : ℕ)
    (whole : size ≤ length buf) where
  -- The state and the address after a write, for one chunk that stood at an address before.
  pub record IsWritten (st st' : StorageCore L) (addr' old : ChunkAddr) (chunk : Bytes)
      : Type 0 where
    pub storage : IsStorage lru st'
    pub written : IsAt st' addr' (take size buf)
    pub undisturbed : IsAt st' old chunk

  module _ (st : StorageCore L) (h : IsStorage lru st)
      (fits : st.cur_container.cur_size + size ≤ max_container_size) where
    body' :
        (append_chunk st addr buf size).0.cur_container.body
        ≡ st.cur_container.body ++ take size buf
    unfolding append_chunk
    body' =
        ap (λ (t : Bytes). t ++ take size buf)
          (take_of_length-le st.cur_container.cur_size st.cur_container.body
            (omega (arith, h.body_size)))

    size' :
        (append_chunk st addr buf size).0.cur_container.cur_size ≡ st.cur_container.cur_size + size
    unfolding append_chunk
    size' = omega arith

    append_chunk-IsStorage : IsStorage lru (append_chunk st addr buf size).0
    unfolding append_chunk
    append_chunk-IsStorage = record {
      copies = h.copies;
      has_room = h.has_room;
      body_size =
          ap length body'
          ∙ omega (
            arith,
            length-append st.cur_container.body (take size buf),
            length-take size buf,
            h.body_size,
          );
      bounded = omega arith;
      unsaved = h.unsaved;
    }

    append_chunk-IsAt_self :
        IsAt (append_chunk st addr buf size).0 (append_chunk st addr buf size).1 (take size buf)
    unfolding append_chunk
    append_chunk-IsAt_self = record {
      bytes = st.cur_container.body ++ take size buf;
      there =
          content_of_body (append_chunk st addr buf size).0 st.cur_container.id h.unsaved refl
          ∙ ap some body';
      inside = omega (
        arith,
        length-append st.cur_container.body (take size buf),
        length-take size buf,
        h.body_size,
      );
      same =
          ap (λ n. slice n size (st.cur_container.body ++ take size buf)) (sym h.body_size)
          ∙ ap
              (λ n. slice (length st.cur_container.body) n (st.cur_container.body ++ take size buf))
              (let e : size ≡ length (take size buf) = omega (arith, length-take size buf) in e)
          ∙ slice-append_self st.cur_container.body (take size buf);
    }

    append_chunk-IsAt :
        (old : ChunkAddr) (chunk : Bytes)
        → IsAt st old chunk
        → IsAt (append_chunk st addr buf size).0 old chunk
    unfolding append_chunk
    append_chunk-IsAt old chunk at =
        elim (Option-cases (find bytes_discrete old.container_id st.disk)) [
          | inr (file, saved) ↦ record {
            bytes = at.bytes;
            there =
                content_of_file (append_chunk st addr buf size).0 old.container_id file saved
                ∙ ground (arith, at.there);
            inside = at.inside;
            same = at.same;
          }
          | inl unsaved ↦ elim (bytes_discrete st.cur_container.id old.container_id) [
            | no elsewhere ↦ absurd (ground (arith, at.there))
            | yes here ↦
                let e : st.cur_container.body ≡ at.bytes = ground (arith, at.there) in
                record {
                  bytes = st.cur_container.body ++ take size buf;
                  there =
                      content_of_body (append_chunk st addr buf size).0 old.container_id unsaved
                        here
                      ∙ ap some body';
                  inside = omega (
                    arith,
                    at.inside,
                    ap length e,
                    length-append st.cur_container.body (take size buf),
                  );
                  same =
                      slice-append old.offset old.len st.cur_container.body (take size buf)
                        (omega (arith, at.inside, ap length e))
                      ∙ ap (slice old.offset old.len) e
                      ∙ at.same;
                }
          ]
        ]

  -- The state between the save and the copy, when the chunk does not fit.
  module _ (can_open : Bytes → Bool) (uuid : Bytes) (st : StorageCore L) (h : IsStorage lru st)
      (opens : can_open st.cur_container.id ≡ true)
      (new_id : find bytes_discrete uuid st.disk ≡ none)
      (other_id : uuid ≢ st.cur_container.id) where
    abbrev rolled : StorageCore L
    rolled = record st {
      disk =
          assign bytes_discrete st.cur_container.id
            (take st.cur_container.cur_size st.cur_container.body) st.disk;
      stat = record (st.stat) { write_container_num = u64 (st.stat.write_container_num + 1) };
      cur_container = record { id = uuid; body = []; cur_size = 0 };
    }

    saved_file : take st.cur_container.cur_size st.cur_container.body ≡ st.cur_container.body
    saved_file =
        take_of_length-le st.cur_container.cur_size st.cur_container.body
          (omega (arith, h.body_size))

    -- A file that the disk held is not the one that is written.
    find-rolled :
        (id file : Bytes)
        → find bytes_discrete id st.disk ≡ some file
        → find bytes_discrete id rolled.disk ≡ some file
    find-rolled id file e =
        find-assign_ne bytes_discrete st.cur_container.id id
          (take st.cur_container.cur_size st.cur_container.body) st.disk
          (λ p. let lost : find bytes_discrete id st.disk ≡ none = rw p h.unsaved in ground arith)
        ∙ e

    rolled-IsStorage : IsStorage lru rolled
    rolled-IsStorage = record {
      copies = record {
        lru_valid = h.copies.lru_valid;
        capacity = h.copies.capacity;
        narrow = h.copies.narrow;
        pool_size = h.copies.pool_size;
        next_index = h.copies.next_index;
        holds = λ name i e.
            let (below, (file, zeros, on_disk, pool)) = h.copies.holds name i e in
            (below, (file, zeros, find-rolled name file on_disk, pool));
        distinct = h.copies.distinct;
      };
      has_room = h.has_room;
      body_size = refl;
      bounded = omega arith;
      unsaved =
          find-assign_ne bytes_discrete st.cur_container.id uuid
            (take st.cur_container.cur_size st.cur_container.body) st.disk other_id
          ∙ new_id;
    }

    rolled-IsAt : (old : ChunkAddr) (chunk : Bytes) → IsAt st old chunk → IsAt rolled old chunk
    rolled-IsAt old chunk at = record {
      bytes = at.bytes;
      there = elim (Option-cases (find bytes_discrete old.container_id st.disk)) [
        | inr (file, saved) ↦
            content_of_file rolled old.container_id file (find-rolled old.container_id file saved)
            ∙ ground (arith, at.there)
        | inl unsaved ↦ elim (bytes_discrete st.cur_container.id old.container_id) [
          | no elsewhere ↦ absurd (ground (arith, at.there))
          | yes here ↦
              let e : st.cur_container.body ≡ at.bytes = ground (arith, at.there) in
              content_of_file rolled old.container_id
                (take st.cur_container.cur_size st.cur_container.body)
                (rw (← here) (
                  find-assign_self bytes_discrete st.cur_container.id
                    (take st.cur_container.cur_size st.cur_container.body) st.disk))
              ∙ ap some (saved_file ∙ e)
        ]
      ];
      inside = at.inside;
      same = at.same;
    }

    rolled-append_chunk :
        (append_chunk
          (record rolled { cur_container = record (st.cur_container) { cur_size = 0; id = uuid } })
          addr
          buf
          size)
        ≡ append_chunk rolled addr buf size
    unfolding append_chunk take
    rolled-append_chunk = refl

    write_chunk_rolls :
        max_container_size < st.cur_container.cur_size + size
        → size ≤ max_container_size
        → write_chunk can_open uuid st addr buf size ≡ ok (append_chunk rolled addr buf size)
    unfolding write_chunk save_container take
    write_chunk_rolls over small = ground (arith, h.bounded)

    -- `WriteChunk` succeeds if the file system opens the file of a full container. The new chunk
    -- stands at the address that it returns, every chunk that stood at an address still stands
    -- there, and the state is as sound as before. Its hypotheses: the id drawn is new, and the chunk
    -- is no larger than a container.
    pub write_chunk-IsWritten :
        (old : ChunkAddr) (chunk : Bytes)
        → size ≤ max_container_size
        → IsAt st old chunk
        → (st' : StorageCore L) × (addr' : ChunkAddr) × (write_chunk can_open uuid st addr buf size
            ≡ ok (st', addr'))
          × IsWritten st st' addr' old chunk
    write_chunk-IsWritten old chunk small at =
        elim (dec_le (st.cur_container.cur_size + size) max_container_size) [
          | yes fits ↦ (
            (append_chunk st addr buf size).0,
            (append_chunk st addr buf size).1,
            unfold write_chunk in ground (arith, h.bounded),
            record {
              storage = append_chunk-IsStorage st h fits;
              written = append_chunk-IsAt_self st h fits;
              undisturbed = append_chunk-IsAt st h fits old chunk at;
            },
          )
          | no over ↦ (
            (append_chunk rolled addr buf size).0,
            (append_chunk rolled addr buf size).1,
            write_chunk_rolls (omega arith) small,
            record {
              storage = append_chunk-IsStorage rolled rolled-IsStorage (omega arith);
              written = append_chunk-IsAt_self rolled rolled-IsStorage (omega arith);
              undisturbed =
                  append_chunk-IsAt rolled rolled-IsStorage (omega arith) old chunk
                    (rolled-IsAt old chunk at);
            },
          )
        ]
