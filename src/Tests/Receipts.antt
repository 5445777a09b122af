-- ===== src/Tests/Receipts.antt =====
-- Receipts, reactions and recalls at concrete inputs, after user 1 has said hello.
use slowchat.Base.{
  not, length, ◌+◌, ◌==◌, ◌≡◌, ◌≤◌, ◌<◌, refl, true, false, arith, [], ◌∷◌, any, if◌then◌else◌,
}
use slowchat.Base.Rows.{AtMostOne}
use slowchat.Base.Action.{Result, ok, err, app_error, receipt_seq_invalid}
use slowchat.Model.{Store, Receipt, MessageReaction, MessageView}
use slowchat.Sessions.{session_is_good}
use slowchat.Views.{to_message}
use slowchat.Conversations.Membership.{Membership, lock_membership}
use slowchat.Conversations.Receipts.{advance_receipt, read_kind}
use slowchat.Conversations.Receipts.Cursors.{HasCursors, advance_receipt-HasCursors}
use slowchat.Conversations.Receipts.Answers.{
  advance_receipt_branches, delivered_to, read_to, IsThere,
}
use slowchat.Messages.Access.{require_member_message}
use slowchat.Messages.Reactions.{add_reaction, reaction_of}
use slowchat.Messages.Reactions.Toggling.{add_reaction-AtMostOne}
use slowchat.Messages.Recall.{recall, recalled}
use slowchat.Messages.Recall.Authority.{Recalled, recall-Recalled, recall-once}
use slowchat.Tests.Messages.{said_message, row_meanwhile}
use slowchat.Tests.World.{list_database, world, auth_of, no_trace, env_at, state_row}

abbrev after_hello : Store
after_hello = record world { messages = said_message ∷ []; conversations = row_meanwhile ∷ [] }

good : session_is_good list_database 7 (auth_of 2) after_hello ≡ true
unfolding session_is_good
good = refl

abbrev membership : Membership
membership = record {
  conversation = row_meanwhile;
  state = state_row 10 2 0;
  audience = 1 ∷ 2 ∷ [];
}

locked : lock_membership list_database 2 10 after_hello ≡ ok membership
unfolding lock_membership
locked = refl

after_hello-HasCursors : HasCursors after_hello
after_hello-HasCursors = record { keyed = λ id. ground arith; ordered = ground arith }

advance_receipt-HasCursors_example :
    HasCursors
      (advance_receipt list_database
        (env_at 7 3000)
        (auth_of 2)
        10
        read_kind
        1
        no_trace
        after_hello).1
advance_receipt-HasCursors_example =
    advance_receipt-HasCursors list_database (env_at 7 3000) (auth_of 2) 10 read_kind 1 no_trace
      after_hello after_hello-HasCursors

advance_receipt_branches_example :
    (1 < 9
      → advance_receipt list_database
          (env_at 7 3000)
          (auth_of 2)
          10
          read_kind
          9
          no_trace
          after_hello
        ≡ (err (app_error receipt_seq_invalid 400), after_hello))
    × (9 ≤ 1
        → (r : Receipt) × ((advance_receipt list_database
              (env_at 7 3000)
              (auth_of 2)
              10
              read_kind
              9
              no_trace
              after_hello).0
            ≡ ok r)
          × (r.last_delivered_seq ≡ delivered_to read_kind 9 membership.state)
          × (r.last_read_seq ≡ read_to read_kind 9 membership.state))
    × (9 ≤ 1
        → IsThere read_kind 9 membership.state
        → (advance_receipt list_database
            (env_at 7 3000)
            (auth_of 2)
            10
            read_kind
            9
            no_trace
            after_hello).1
          ≡ after_hello)
advance_receipt_branches_example =
    advance_receipt_branches list_database (env_at 7 3000) (auth_of 2) 10 read_kind 9 no_trace
      after_hello membership good locked

abbrev reacted : Result MessageReaction × Store
reacted = add_reaction list_database (env_at 7 3000) (auth_of 2) 1000 5 no_trace after_hello

abbrev reaction_row : MessageReaction
reaction_row = record { id = 3000; message_id = 1000; user_id = 2; reaction = 5; created_at = 7 }

reacted_ok : reacted ≡ (ok reaction_row, reacted.1)
unfolding add_reaction slowchat.Sessions.validate_with_manager session_is_good
    require_member_message slowchat.Messages.Reactions.insert_reaction slowchat.Outbox.Writer.append
reacted_ok = refl

add_reaction-AtMostOne_example :
    (any (reaction_of 1000 2 5) reacted.1.reactions ≡ true)
    × AtMostOne (reaction_of 1000 2 5) reacted.1.reactions
    × (any (reaction_of 1000 2 5) after_hello.reactions ≡ true
        → reacted.1.reactions ≡ after_hello.reactions)
    × (any (reaction_of 1000 2 5) after_hello.reactions ≡ true
        → list_database.identifiers false ≡ 0
        → reacted.1 ≡ after_hello)
    × (length reacted.1.outbox
        ≡ length after_hello.outbox
          + (if list_database.identifiers (not (any (reaction_of 1000 2 5) after_hello.reactions))
                == 0
              then 0
              else 1))
add_reaction-AtMostOne_example =
    add_reaction-AtMostOne list_database (env_at 7 3000) (auth_of 2) 1000 5 no_trace after_hello
      reaction_row reacted.1 tt reacted_ok

abbrev taken_back : Result MessageView × Store
taken_back = recall list_database 120 (env_at 7 3000) (auth_of 1) 1000 no_trace after_hello

abbrev taken_back_view : MessageView
taken_back_view = to_message (recalled list_database 120 (env_at 7 3000) (auth_of 1) said_message)

taken_back_ok : taken_back ≡ (ok taken_back_view, taken_back.1)
unfolding recall slowchat.Sessions.validate_with_manager session_is_good
    slowchat.Messages.Recall.Guard.recall_check slowchat.Outbox.Writer.append
taken_back_ok = refl

recall-Recalled_example :
    Recalled list_database 120
      (env_at 7 3000)
      (auth_of 1)
      1000
      no_trace
      after_hello
      taken_back.1
      taken_back_view
recall-Recalled_example =
    recall-Recalled list_database 120 (env_at 7 3000) (auth_of 1) 1000 no_trace after_hello
      taken_back.1 taken_back_view taken_back_ok

recall-once_example : ¬ (
    recall list_database 120 (env_at 8 4000) (auth_of 1) 1000 no_trace taken_back.1
    ≡ (ok taken_back_view, taken_back.1))
recall-once_example =
    recall-once list_database 120 1000 (env_at 7 3000) (env_at 8 4000) (auth_of 1) (auth_of 1)
      no_trace no_trace after_hello taken_back.1 taken_back.1 taken_back_view taken_back_view
      ((λ e. refl), tt) taken_back_ok
