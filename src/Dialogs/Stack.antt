-- ===== src/Dialogs/Stack.antt =====
-- ui/src/components/modal/ModalProvider.tsx: the stack of the modals that are open. Of a modal the
-- model has what it shows, `content`, and the flag that its backdrop reads.
use pb_launcher.Prelude.{ℕ, zero, suc, List, [], ◌∷◌, ◌++◌, Bool, ◌≡◌, refl, ap, ◌∙◌, if◌then◌else◌}

module _ (Content : Type 0) where
  pub record ModalComponent : Type 0 where
    pub content : Content
    pub close_on_backdrop_click : Bool

  -- `prev.slice(0, -1)`
  unfoldable pub close_modal : List ModalComponent → List ModalComponent
  close_modal [] = []
  close_modal (m ∷ []) = []
  close_modal (m ∷ n ∷ stack) = m ∷ close_modal (n ∷ stack)

  -- A click on the backdrop of the modal at an index; that of the one on top is in front.
  unfoldable pub click_backdrop :
      List ModalComponent → ℕ → List ModalComponent → List ModalComponent
  click_backdrop [] i stack = stack
  click_backdrop (m ∷ ms) zero stack =
      if m.close_on_backdrop_click then close_modal stack else stack
  click_backdrop (m ∷ ms) (suc i) stack = click_backdrop ms i stack

  pub data Act : Type 0 where
    open_modal : ModalComponent → Act
    close : Act
    close_all_modals : Act
    backdrop : ℕ → Act

  unfoldable pub act : List ModalComponent → Act → List ModalComponent
  act stack (open_modal m) = stack ++ m ∷ []
  act stack close = close_modal stack
  act stack close_all_modals = []
  act stack (backdrop i) = click_backdrop stack i stack

  unfoldable pub acts : List ModalComponent → List Act → List ModalComponent
  acts stack [] = stack
  acts stack (a ∷ as_) = acts (act stack a) as_

  -- Acts in which each modal that is opened is closed again, after those that it opened itself.
  pub data Balanced : List Act → Type 0 where
    nothing : Balanced []
    within :
        (m : ModalComponent) (inner rest : List Act)
        → Balanced inner
        → Balanced rest
        → Balanced (open_modal m ∷ inner ++ close ∷ rest)

  close_modal-snoc :
      (stack : List ModalComponent) (m : ModalComponent) → close_modal (stack ++ m ∷ []) ≡ stack
  unfolding close_modal
  close_modal-snoc [] m = refl
  close_modal-snoc (n ∷ []) m = refl
  close_modal-snoc (n ∷ k ∷ stack) m = ap (λ s. n ∷ s) (close_modal-snoc (k ∷ stack) m)

  acts-append :
      (stack : List ModalComponent) (xs ys : List Act)
      → acts stack (xs ++ ys) ≡ acts (acts stack xs) ys
  unfolding acts
  acts-append stack [] ys = refl
  acts-append stack (a ∷ xs) ys = acts-append (act stack a) xs ys

  -- A modal, and all that is opened and closed in front of it, leaves the stack as it was.
  pub acts-Balanced :
      (stack : List ModalComponent) (script : List Act)
      → Balanced script
      → acts stack script ≡ stack
  unfolding acts act
  acts-Balanced stack _ nothing = refl
  acts-Balanced stack _ (within m inner rest b c) =
      acts-append (stack ++ m ∷ []) inner (close ∷ rest)
      ∙ ap (λ s. acts (close_modal s) rest) (acts-Balanced (stack ++ m ∷ []) inner b)
      ∙ ap (λ s. acts s rest) (close_modal-snoc stack m)
      ∙ acts-Balanced stack rest c
