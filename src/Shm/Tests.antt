-- ===== src/Shm/Tests.antt =====
-- The theorems about shared memory at concrete inputs: the allocators give pages without end.
use robu_microkernel.Base.{ℕ, ◌+◌, ◌≡◌, refl, true, false, none, List, [], ◌∷◌, arith}
use robu_microkernel.Shm.{
  Segment, Shm, ShmMemory, find_key_from, find_segment, free_segment_from, make_shmid,
}
use robu_microkernel.Shm.Segments.{
  alloc_pages, create_segment, free_segment_frames, free_some_pages, get_new, shm_ctl, shm_get,
}
use robu_microkernel.Shm.Attachments.{shm_dt, shm_at}
use robu_microkernel.Shm.Attached.{IsCounted}
use robu_microkernel.Shm.Ids.{GetCall, free_segment-find_segment, get_all}
use robu_microkernel.Shm.Run.{ShmCall, run, run-IsCounted}

abbrev memory : ShmMemory ℕ
memory = record {
  kmalloc = λ a n. (a, a + 4096);
  kfree = λ a p. a;
  page_alloc = λ a. (a, a + 4096);
  page_free = λ a f. a;
  clear_page = λ a f. a;
  map_page = λ a space va f prot. (true, a);
  unmap_page = λ a space va. a;
  tlb_shootdown = λ a space va. a;
  page_contents = λ a f n. [];
}

abbrev no_segment : Segment
no_segment = record {
  in_use = false;
  key = 0;
  generation = 0;
  size = 0;
  npages = 0;
  frames = [];
  frames_at = 0;
  nattch = 0;
  marked_rmid = false;
  cpid = 0;
  lpid = 0;
  atime = 0;
  dtime = 0;
  ctime = 0;
  mode_bits = 0;
}

abbrev empty_tables : Shm ℕ
empty_tables = record {
  segments = λ i. no_segment;
  attaches = λ j. record { in_use = false; shmid = 0; address_space = 0; va = 0; npages = 0 };
  outside = 4096;
}

-- A segment of two pages is made, attached twice, marked for removal and detached once.
abbrev calls : List ShmCall
calls =
    ShmCall.get 1 2 0 5000 512
    ∷ ShmCall.attach 2 2 0x7000 0 0
    ∷ ShmCall.attach 3 4 0x8000 0 0
    ∷ ShmCall.control 0 0
    ∷ ShmCall.detach 4 0x7000 0x140000000
    ∷ []

one_left : ((run memory empty_tables calls).segments 0).nattch ≡ 1
unfolding run shm_dt shm_ctl shm_at shm_get
one_left = refl

run-IsCounted_example :
    IsCounted (run memory empty_tables calls).segments (run memory empty_tables calls).attaches
run-IsCounted_example = run-IsCounted memory empty_tables calls (λ i. refl) (λ j. refl)

abbrev one_segment : Shm ℕ
one_segment = record empty_tables { segments = λ i. record no_segment { in_use = true } }

-- A new segment takes the slot of the one that was freed.
abbrev gets : List GetCall
gets = record { now = 1; caller = 2; key = 0; size = 5000; shmflg = 512 } ∷ []

slot_again :
    ((get_all memory (free_segment_frames memory one_segment 3) gets).segments 3).in_use ≡ true
unfolding get_all free_segment_frames shm_get get_new create_segment free_segment_from find_key_from
    alloc_pages free_some_pages
slot_again = refl

free_segment-find_segment_example :
    find_segment
      (get_all memory (free_segment_frames memory one_segment 3) gets).segments
      (make_shmid 3 0)
    ≡ none
free_segment-find_segment_example =
    free_segment-find_segment memory one_segment 3 gets (omega arith) (omega arith)
