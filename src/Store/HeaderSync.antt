-- ===== src/Store/HeaderSync.antt =====
-- A message in Telegram and its row: an edit that is still to be made is not forgotten, whatever changes
-- arrive while another edit is under way.
use omp_telegram.Common.{
  Bool, if◌then◌else◌, ◌||◌, not, ◌==◌, ℕ, ◌≡◌, Text, text_eq, text_eq_iff, true, false, List, [],
  ◌∷◌, ℤ, arith,
}
use omp_telegram.Store.Schema.{OutboxRow}
use omp_telegram.Store.Outbox.{delivered_row}
use omp_telegram.Store.Edits.{
  set_header_row, claim_edit, header_delivered_row, edit_finished_row, release_row,
}
use omp_telegram.Store.FinalActions.{show_actions}
use omp_telegram.Store.Recovery.{edit_given_up}

-- What happens to a delivered message: the store gives it a new header or new buttons, a sender claims it
-- with the header and buttons that it has then, gives the claim back, or has tried its edit of the
-- header and the buttons, or of the buttons alone, and says so, whether Telegram took the edit or
-- refused it for good; or the store is opened again.
pub data Event : Type 0 where
  new_header : ℕ → Text → Event
  new_actions : Text → Event
  claimed released header_edited actions_edited restarted : Event

-- A header and the buttons below it.
pub record Face : Type 0 where
  pub header : Text
  pub actions : Text

-- The row, what the sender took with its claim, what the edits that were finished last had tried to show,
-- and whether a claimed edit was given up since the buttons last changed.
pub record Message : Type 0 where
  pub row : OutboxRow
  pub taken : Face
  pub tried : Face
  pub given_up : Bool

abbrev pub face : OutboxRow → Face
face o = record { header = o.header; actions = o.final_actions }

-- The row while an edit of it is claimed, as the UPDATEs ask for it.
abbrev pub in_claim : (OutboxRow → OutboxRow) → OutboxRow → OutboxRow
in_claim f o = if o.actions_pending == 2 then f o else o

unfoldable pub react : Event → Message → Message
react (new_header clock header) m = record m { row = set_header_row clock header m.row }
react (new_actions actions) m = record m { row = show_actions actions m.row; given_up = false }
react claimed m = record m { row = claim_edit m.row; taken = face m.row }
react released m = record m { row = in_claim release_row m.row }
react header_edited m = record m {
  row = in_claim (header_delivered_row m.taken.header m.taken.actions) m.row;
  tried = m.taken;
}
react actions_edited m = record m {
  row = in_claim (edit_finished_row m.taken.actions) m.row;
  tried = record (m.tried) { actions = m.taken.actions };
}
react restarted m = record m {
  row = in_claim edit_given_up m.row;
  given_up = m.given_up || m.row.actions_pending == 2;
}

unfoldable pub history : List Event → Message → Message
unfolding react
history [] m = m
history (e ∷ events) m = history events (react e m)

-- The buttons are due, claimed or given up.
abbrev pub accounted : Message → Bool
accounted m = not (m.row.actions_pending == 0) || m.given_up

-- What the row has and no edit tried to show, or the sender did not take, is accounted for.
pub record Tracks (m : Message) : Type 0 where
  pub header_due : text_eq m.row.header m.tried.header ≡ false → m.row.header_pending ≡ true
  pub header_left : text_eq m.row.header m.taken.header ≡ false → m.row.header_pending ≡ true
  pub actions_due : text_eq m.row.final_actions m.tried.actions ≡ false → accounted m ≡ true
  pub actions_left : text_eq m.row.final_actions m.taken.actions ≡ false → accounted m ≡ true

react-Tracks : (e : Event) (m : Message) → Tracks m → Tracks (react e m)
unfolding react set_header_row header_delivered_row edit_finished_row release_row
react-Tracks (new_header clock header) m h = ground (arith, text_eq_iff m.row.header header)
react-Tracks (new_actions actions) m h = ground arith
react-Tracks claimed m h = ground (
  arith,
  text_eq_iff m.row.header m.row.header,
  text_eq_iff m.row.final_actions m.row.final_actions,
)
react-Tracks released m h = ground arith
react-Tracks header_edited m h = ground arith
react-Tracks actions_edited m h = ground arith
react-Tracks restarted m h = ground arith

history-Tracks : (events : List Event) (m : Message) → Tracks m → Tracks (history events m)
unfolding history
history-Tracks [] m h = h
history-Tracks (e ∷ events) m h = history-Tracks events (react e m) (react-Tracks e m h)

-- A message that was just delivered, as it was sent.
unfoldable pub delivered : ℕ → ℤ → Face → OutboxRow → Message
unfolding delivered_row
delivered clock message_id sent o = record {
  row = delivered_row clock message_id sent.header sent.actions o;
  taken = sent;
  tried = sent;
  given_up = false;
}

delivered-Tracks :
    (clock : ℕ) (message_id : ℤ) (sent : Face) (o : OutboxRow)
    → o.header_editable ≡ true
    → Tracks (delivered clock message_id sent o)
unfolding delivered
delivered-Tracks clock message_id sent o e = ground arith

either : (a b : Bool) → (a ≡ false → b ≡ true) → (a || b) ≡ true
either a b h = ground (arith, h)

-- After the delivery of a message with an editable header, whatever changes, edits and reopenings of the
-- store follow in whatever order: what the sender tried to show last, whether or not Telegram took
-- it, has the header of the row, or an edit of the header is due; and it has the buttons of the row,
-- or an edit of the buttons is due or claimed, or the store was reopened during a claimed edit and
-- the buttons have not changed since.
pub edits_never_lost :
    (clock : ℕ) (message_id : ℤ) (sent : Face) (o : OutboxRow) (events : List Event)
    → o.header_editable ≡ true
    → let m = history events (delivered clock message_id sent o) in
      ((text_eq m.row.header m.tried.header || m.row.header_pending) ≡ true)
      × ((text_eq m.row.final_actions m.tried.actions
            || (not (m.row.actions_pending == 0) || m.given_up))
          ≡ true)
edits_never_lost clock message_id sent o events e =
    let m = history events (delivered clock message_id sent o) in
    let h = history-Tracks events _ (delivered-Tracks clock message_id sent o e) in
    (
      either (text_eq m.row.header m.tried.header) m.row.header_pending h.header_due,
      either (text_eq m.row.final_actions m.tried.actions) (accounted m) h.actions_due,
    )
