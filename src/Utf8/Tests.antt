-- ===== src/Utf8/Tests.antt =====
-- Runs of the assembler.
use burn_lm.Prelude.{ℕ, List, ◌++◌, concat, ◌≡◌, ◌≤◌, refl, [], ◌∷◌, some, none, length}
use burn_lm.Utf8.Pending.{push-pending}
use burn_lm.Utf8.Chunks.{push_chunks, push_chunks_lem, push-Scans, text_in}
use burn_lm.Utf8.Whole.{push_chunks-valid, finish-push_chunks}
use burn_lm.Utf8.Scan.{Scans}
use burn_lm.Utf8.{
  push, push_loop, from_utf8, start_of, second, continue_with, between, text_of, finish, lossy,
}

-- The last byte of `é` completes the character that was held back.
push_completes : push (195 ∷ []) (169 ∷ []) ≡ (some (195 ∷ 169 ∷ []), [])
unfolding push push_loop from_utf8 start_of second continue_with between text_of
push_completes = refl

-- Three of the four bytes of a character are held back.
push_holds : push (240 ∷ 159 ∷ []) (152 ∷ []) ≡ (none, 240 ∷ 159 ∷ 152 ∷ [])
unfolding push push_loop from_utf8 start_of second continue_with between text_of
push_holds = refl

-- A byte that can start nothing is replaced at once, and what follows it is not held back.
push_replaces : push [] (255 ∷ 65 ∷ []) ≡ (some (239 ∷ 191 ∷ 189 ∷ 65 ∷ []), [])
unfolding push push_loop from_utf8 start_of second continue_with between text_of
push_replaces = refl

finish_replaces : finish (240 ∷ 159 ∷ []) ≡ some (239 ∷ 191 ∷ 189 ∷ [])
unfolding finish lossy from_utf8 start_of second continue_with between text_of
finish_replaces = refl

push-pending_example : length (push (240 ∷ []) (159 ∷ 152 ∷ [])).1 ≤ 3
push-pending_example = push-pending (240 ∷ []) (159 ∷ 152 ∷ [])

-- `é`, the euro sign cut after its second byte, and a byte that starts nothing.
abbrev cut_chunks : List (List ℕ)
cut_chunks = (195 ∷ 169 ∷ 226 ∷ 130 ∷ []) ∷ (172 ∷ []) ∷ (255 ∷ 226 ∷ []) ∷ []

abbrev valid_chunks : List (List ℕ)
valid_chunks = (195 ∷ 169 ∷ 226 ∷ 130 ∷ []) ∷ (172 ∷ []) ∷ []

push-Scans_example :
    let out = push (226 ∷ []) (130 ∷ 172 ∷ 255 ∷ []) in
    Scans (226 ∷ 130 ∷ 172 ∷ 255 ∷ []) (text_in out.0) out.1
push-Scans_example = push-Scans (226 ∷ []) (130 ∷ 172 ∷ 255 ∷ [])

push_chunks_lem_example :
    push_chunks [] cut_chunks
    ≡ (text_in (push [] (concat cut_chunks)).0, (push [] (concat cut_chunks)).1)
push_chunks_lem_example = push_chunks_lem cut_chunks

push_chunks-valid_example : push_chunks [] valid_chunks ≡ (concat valid_chunks, [])
unfolding from_utf8 start_of second continue_with between
push_chunks-valid_example = push_chunks-valid valid_chunks refl

finish-push_chunks_example :
    (push_chunks [] cut_chunks).0 ++ text_in (finish (push_chunks [] cut_chunks).1)
    ≡ text_in (finish (concat cut_chunks))
finish-push_chunks_example = finish-push_chunks cut_chunks
