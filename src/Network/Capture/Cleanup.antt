-- ===== src/Network/Capture/Cleanup.antt =====
-- The cleanup of raw objects, network/operations.py.
use sahabino.Common.{
  ℕ, ◌<◌, Bool, true, false, ◌≡◌, refl, inl, inr, ◌&&◌, none, some, List, [], ◌∷◌, ◌==◌, lt→ltb,
  All, arith, Bool-cases, count_of, length-filter,
}
use sahabino.Network.Capture.{
  cleanup_conflict, ObjectKey, NetworkCapture, Store, returned, raised, same_object, get_capture,
  update_where, head_object, delete_object, Env,
}
use sahabino.Network.Capture.Operations.{
  cleanup_capture_object, delete_referenced, mark_deleted, refers, still_needs,
}

deleted_object :
    (key : ObjectKey) (objects : List (ObjectKey × ℕ))
    → head_object key (delete_object key objects) ≡ none
unfolding head_object delete_object
deleted_object key [] = refl
deleted_object key ((k, size) ∷ rest) = elim (Bool-cases (same_object k key)) [
  | inl e ↦ rw e (deleted_object key rest)
  | inr e ↦ rw e (rw e (deleted_object key rest))
]

and_false : (b : Bool) → (b && false) ≡ false
and_false b = ground arith

none_refers :
    (now : ℕ) (key : ObjectKey) (cs : List NetworkCapture)
    → All (λ c. refers key c ≡ false) (update_where (refers key) (mark_deleted now) cs)
unfolding update_where mark_deleted
none_refers now key [] = tt
none_refers now key (c ∷ cs) = elim (Bool-cases (refers key c)) [
  | inl e ↦ rw e (and_false (same_object c.object_key key), none_refers now key cs)
  | inr e ↦ rw e (e, none_refers now key cs)
]

unmarked :
    (key : ObjectKey) (cs : List NetworkCapture)
    → count_of (refers key) cs ≡ 0
    → All (λ c. refers key c ≡ false) cs
unfolding count_of
unmarked key [] h = tt
unmarked key (c ∷ cs) h = elim (Bool-cases (refers key c)) [
  | inl e ↦ absurd (ground (arith, e))
  | inr e ↦ (e, unmarked key cs (ground (arith, e)))
]

-- The cleanup of a capture's raw object, with storage that answers. If a capture that is not at its end
-- refers to the object without a deletion mark, the cleanup is refused and changes nothing. If
-- there is none, the cleanup returns the number of captures that refer to the object; none refers to
-- it any more, and the object is deleted if there was one that did.
pub cleanup_exact :
    (env : Env) (capture_id : ℕ) (s : Store) (c : NetworkCapture)
    → get_capture capture_id s ≡ some c
    → env.storage_up ≡ true
    → let out = cleanup_capture_object env capture_id s in
      (0 < count_of (still_needs c.object_key) s.captures → out ≡ (raised cleanup_conflict, s))
      × (count_of (still_needs c.object_key) s.captures ≡ 0
          → (out.0 ≡ returned (count_of (refers c.object_key) s.captures))
            × All (λ d. refers c.object_key d ≡ false) out.1.captures
            × (0 < count_of (refers c.object_key) s.captures
                → head_object c.object_key out.1.objects ≡ none))
unfolding cleanup_capture_object delete_referenced
cleanup_exact env capture_id s c e up =
    let needed = length-filter (still_needs c.object_key) s.captures in
    let count = length-filter (refers c.object_key) s.captures in
    (
      λ h. rw (e, needed, lt→ltb 0 _ h, cleanup_capture_object) refl,
      λ h. elim (Bool-cases (count_of (refers c.object_key) s.captures == 0)) [
        | inl g ↦
            let zero_count : count_of (refers c.object_key) s.captures ≡ 0 = ground arith in
            rw (e, needed, h, count, zero_count, cleanup_capture_object)
              (refl, unmarked c.object_key s.captures zero_count, λ k. absurd (omega arith))
        | inr g ↦
            rw (e, needed, h, count, g, up, cleanup_capture_object)
              (
                refl,
                none_refers env.now c.object_key s.captures,
                λ k. deleted_object c.object_key s.objects,
              )
      ],
    )
