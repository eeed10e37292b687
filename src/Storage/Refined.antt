-- ===== src/Storage/Refined.antt =====
-- A folder (packages/sync/src/storage-port.ts) against a map from paths to contents.
use knowtion.Base.{
  ◌≡◌, refl, ap, ap₂, ◌∙◌, Bool, not, ◌&&◌, Option, none, some, is_some, List, [], ◌∷◌, Text, ◌==◌,
  list_eq, nat_eq, if◌then◌else◌, contains, arith,
}
use knowtion.Pack.Bytes.{Bytes}
use knowtion.Evaluate.Matching.{starts_with}
use knowtion.Storage.{Folder, IsFolder}

pub data FolderCall : Type 0 where
  put_if_absent put_own : Text → Bytes → FolderCall
  get delete : Text → FolderCall
  -- whether a path is in the listing of a prefix
  listed : Text → Text → FolderCall

pub data Answer : Type 0 where
  done : Answer
  truth : Bool → Answer
  found : Option Bytes → Answer

-- What is stored at each path.
abbrev pub Contents : Type 0
Contents = Text → Option Bytes

abbrev stored_at : Text → Bytes → Contents → Contents
stored_at p b c = λ q. if q == p then some b else c q

-- The contents that a call leaves, and what it answers.
unfoldable pub contents_after : FolderCall → Contents → Contents
contents_after (put_if_absent p b) c = if is_some (c p) then c else stored_at p b c
contents_after (put_own p b) c = stored_at p b c
contents_after (get p) c = c
contents_after (delete p) c = λ q. if q == p then none else c q
contents_after (listed p prefix) c = c

unfoldable pub expected_answer : FolderCall → Contents → Answer
expected_answer (put_if_absent p b) c = truth (not (is_some (c p)))
expected_answer (put_own p b) c = done
expected_answer (get p) c = found (c p)
expected_answer (delete p) c = done
expected_answer (listed p prefix) c = truth (starts_with p prefix && is_some (c p))

unfoldable pub expected_answers : List FolderCall → Contents → List Answer
expected_answers [] c = []
expected_answers (call ∷ calls) c =
    expected_answer call c ∷ expected_answers calls (contents_after call c)

module _ {S : Type 0} (folder : Folder S) where
  unfoldable pub state_after : FolderCall → S → S
  state_after (put_if_absent p b) s = (folder.put_if_absent p b s).1
  state_after (put_own p b) s = folder.put_own p b s
  state_after (get p) s = s
  state_after (delete p) s = folder.delete p s
  state_after (listed p prefix) s = s

  unfoldable pub answer_of : FolderCall → S → Answer
  answer_of (put_if_absent p b) s = truth (folder.put_if_absent p b s).0
  answer_of (put_own p b) s = done
  answer_of (get p) s = found (folder.get p s)
  answer_of (delete p) s = done
  answer_of (listed p prefix) s = truth (contains p (folder.list prefix s))

  unfoldable pub answers : List FolderCall → S → List Answer
  answers [] s = []
  answers (call ∷ calls) s = answer_of call s ∷ answers calls (state_after call s)

  -- The state stores what the map says.
  abbrev pub Represents : S → Contents → Type 0
  Represents s c = (p : Text) → folder.get p s ≡ c p

  module _ (lawful : IsFolder folder) where
    Represents-state_after :
        (call : FolderCall) (s : S) (c : Contents)
        → Represents s c
        → Represents (state_after call s) (contents_after call c)
    unfolding state_after contents_after
    Represents-state_after (put_if_absent p b) s c h q =
        ground (arith, lawful.get-put_if_absent q p b s, h q, h p)
    Represents-state_after (put_own p b) s c h q = ground (arith, lawful.get-put_own q p b s, h q)
    Represents-state_after (get p) s c h q = h q
    Represents-state_after (delete p) s c h q = ground (arith, lawful.get-delete q p s, h q)
    Represents-state_after (listed p prefix) s c h q = h q

    answer_of-expected :
        (call : FolderCall) (s : S) (c : Contents)
        → Represents s c
        → answer_of call s ≡ expected_answer call c
    unfolding answer_of expected_answer
    answer_of-expected (put_if_absent p b) s c h =
        ap truth (lawful.put_if_absent-get p b s ∙ ap (λ o. not (is_some o)) (h p))
    answer_of-expected (put_own p b) s c h = refl
    answer_of-expected (get p) s c h = ap found (h p)
    answer_of-expected (delete p) s c h = refl
    answer_of-expected (listed p prefix) s c h =
        ap truth
          (lawful.contains-list p prefix s ∙ ap (λ o. starts_with p prefix && is_some o) (h p))

    pub answers-Represents :
        (calls : List FolderCall) (s : S) (c : Contents)
        → Represents s c
        → answers calls s ≡ expected_answers calls c
    unfolding answers expected_answers
    answers-Represents [] s c h = refl
    answers-Represents (call ∷ calls) s c h = ap₂ ◌∷◌ (answer_of-expected call s c h) (
        answers-Represents calls (state_after call s) (contents_after call c)
          (Represents-state_after call s c h))
