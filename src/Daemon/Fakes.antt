-- ===== src/Daemon/Fakes.antt =====
-- What the daemon answers where `ASPHR_FAKE_DATA` is "true"; `now` is
-- `dateToProtobufDate(new Date())`.
use anysphere_messaging.Common.{
  ℕ, Bool, true, false, JsString, text, List, [], ◌∷◌, ◌++◌, none, some, if◌then◌else◌,
}
use anysphere_messaging.Types.{
  Timestamp, Friend, complete, IncomingMessage, OutgoingMessage, OutgoingSyncInvitation,
  OutgoingAsyncInvitation, IncomingAsyncInvitation,
}
use anysphere_messaging.Daemon.Schema.{Filter, all, new, GetMyPublicIdResponse, GetStatusResponse}

-- An incoming message as all the fake ones are: from one sender and to nobody else, delivered now.
unfoldable pub incoming : Timestamp → ℕ → JsString → JsString → JsString → Bool → IncomingMessage
incoming now n m unique display seen = record {
  uid = n;
  message = m;
  from_unique_name = unique;
  from_display_name = display;
  other_recipients_list = [];
  delivered_at = some now;
  seen = seen;
  delivered = true;
}

unfoldable pub first_messages : Timestamp → List IncomingMessage
unfolding text incoming
first_messages now =
    incoming now 1 (text "Hello! This is a test message.") (text "sualeh-asif") (text "Sualeh Asif")
      false
    ∷ incoming now 2 (text "This is a new message. It has been delivered, but not yet seen.")
        (text "stzh1555") (text "Shengtong Zhang") false
    ∷ []

unfoldable pub fake_messages : Filter → Timestamp → List IncomingMessage
unfolding first_messages text incoming
fake_messages new now = first_messages now
fake_messages all now =
    first_messages now
    ++ incoming now 3 (text "This is a new message. This message has been marked as seen!")
        (text "stzh1555") (text "Shengtong Zhang") true
      ∷ []

unfoldable pub fake_stream : Filter → Timestamp → List IncomingMessage
unfolding text incoming
fake_stream new now =
    incoming now 1
      (text
        "## Meeting times with Srini\nCan you schedule a meeting with [Srini](https://people.csail.mit.edu/devadas/) for **next week**, please `yayyyyy`?")
      (text "sualeh-asif") (text "Sualeh Asif") false
    ∷ incoming now 2
        (text
          "I pushed some of my comments on the white paper draft to the repo, but I figured I should explain some of it here, too.")
        (text "sualeh-asif") (text "Sualeh Asif") false
    ∷ []
fake_stream all now =
    incoming now 1 (text "Can you schedule a meeting with Srini for next week, please?")
      (text "sualeh-asif") (text "Sualeh Asif") false
    ∷ incoming now 2
        (text
          "I pushed some of my comments on the white paper draft to the repo, but I figured I should explain some of it here, too.")
        (text "sualeh-asif") (text "Sualeh Asif") false
    ∷ incoming now 3
        (text
          "I was thinking about the thing you told me about the other day, and I think you're right.")
        (text "sualeh-asif") (text "Sualeh Asif") true
    ∷ incoming now 4
        (text "Can you take a look at the server branch and see if it works? I made some changes.")
        (text "sualeh-asif") (text "Sualeh Asif") true
    ∷ incoming now 5
        (text
          "Hi Arvid,\nThank you so much for onboarding me to Anysphere! I am very excited to work with you.\nBest,\nShengtong")
        (text "stzh1555") (text "Shengtong Zhang") true
    ∷ incoming now 6
        (text
          "Dear Arvid,\nThis is my first ever completely private message to you. No one will be able to read this message, find out when it was sent, or even suspect that I sent anything to you at all.\nHere's to a thoughtful, private and free future.\nYours truly,\nSualeh")
        (text "stzh1555") (text "Shengtong Zhang") true
    ∷ []

-- An outgoing message with one recipient; `delivered_at` is absent from the outbox.
unfoldable pub outgoing : Timestamp → ℕ → JsString → JsString → JsString → Bool → OutgoingMessage
outgoing now n m unique display arrived = record {
  uid = n;
  message = m;
  to_friends_list =
      record {
        unique_name = unique;
        display_name = display;
        delivered = arrived;
        delivered_at = if arrived then some now else none;
      }
      ∷ [];
  sent_at = some now;
}

unfoldable pub fake_outbox : Timestamp → List OutgoingMessage
unfolding text outgoing
fake_outbox now =
    outgoing now 1 (text "This is an outbox message that doesn't seem to want to be delivered...")
      (text "sualeh-asif") (text "Sualeh Asif") false
    ∷ outgoing now 2 (text "I'm confused...") (text "stzh1555") (text "Shengtong Zhang") false
    ∷ outgoing now 3 (text "I'm very confused...") (text "stzh1555") (text "Shengtong Zhang") false
    ∷ []

unfoldable pub fake_sent : Timestamp → List OutgoingMessage
unfolding text outgoing
fake_sent now =
    outgoing now 1 (text "The draft looks good. Let me know if you need any help!")
      (text "sualeh-asif") (text "Sualeh Asif") true
    ∷ outgoing now 2 (text "Welcome! We are extremely excited to have you as a part of our team.")
        (text "shengtong-zhang") (text "Shengtong Zhang") true
    ∷ []

friend : JsString → JsString → Friend
friend unique display = record {
  unique_name = unique;
  display_name = display;
  public_id = text "asdfasdf";
  invitation_progress = complete;
}

unfoldable pub fake_friends : List Friend
unfolding text friend
fake_friends =
    friend (text "Sualeh") (text "Sualeh Asif")
    ∷ friend (text "Shengtong") (text "Shengtong")
    ∷ friend (text "Bob") (text "Bob")
    ∷ []

unfoldable pub fake_story : JsString
unfolding text
fake_story =
    text
      "Haphazard ambassador hides gradient. Cool mark resolves ambush. Eerie kiss revises distinction. Fashionable film fosters age. New customer views proprietor. Boiled plant kicks truck. Spectacular commission complies triumph. Faint."

unfoldable pub fake_outgoing_sync : Timestamp → List OutgoingSyncInvitation
unfolding text fake_story
fake_outgoing_sync now =
    record {
      unique_name = text "arvid";
      display_name = text "Arvid Lunnemark";
      story = fake_story;
      sent_at = some now;
    }
    ∷ []

unfoldable pub fake_outgoing_async : Timestamp → List OutgoingAsyncInvitation
unfolding text
fake_outgoing_async now =
    record {
      unique_name = text "sualeh-asif";
      display_name = text "Sualeh Asif";
      public_id =
          text
            "85dG6DNNvNQeCNSMXyJ5j3YprmRkmQDe7QcbEuHgoyw81UBLAAAA3NfN3fJgkNUMtrt8vxQBx3wfLn1cg3MJUac99XRwN9rVbn";
      message = text "hi! want to be my friend?";
      sent_at = some now;
    }
    ∷ record {
      unique_name = text "stzh1555";
      display_name = text "Shengtong Zhang";
      public_id =
          text
            "9abFxDNNvxQeCNxMXxJxj3qprmRkmQDe7QcbEuHgoyw81UBLAAAA3NfN3fJgkNUMtrt8vxQBx3wfLn1cg3MJUac99XRwN9rVbn";
      message = text "hi! want to be my friend pls?";
      sent_at = some now;
    }
    ∷ []

unfoldable pub fake_incoming_async : Timestamp → List IncomingAsyncInvitation
unfolding text
fake_incoming_async now =
    record {
      public_id =
          text
            "88Y1GinMVwMtA3SpGo3ZwjzhizQyzJ4xbeh7qzEsHhSDxJ88JiQKoxJ3nR9iGYR5jVQqnxFdekoxhGsDZKaMAWhqPHzKAYXAhR";
      message = text "hey! it's Michael. verify my public ID on my twitter.";
      received_at = some now;
    }
    ∷ record {
      public_id =
          text
            "9abFxDNNvxQeCNxMXxJxj3qprmRkmQDe7QcbEuHgoyw81UBLAAAA3NfN3fJgkNUMtrt8vxQBx3wfLn1cg3MJUac99XRwN9rVbn";
      message = text "hey! it's Aman. verify my public ID on my twitter.";
      received_at = some now;
    }
    ∷ []

unfoldable pub fake_public_id : GetMyPublicIdResponse
unfolding text fake_story
fake_public_id = record {
  public_id =
      text
        "3X2riNETQqUuFTqVrWqkGF8EsepzoarMYrNASmRJAzKwr9XB4Z7amnFNrgGm9wuq3wXAvvhPpu47eHWv29ikv5fbbzeeyfRvcgYqT";
  story = fake_story;
}

-- The release's hash comes from the build.
unfoldable pub fake_status : JsString → GetStatusResponse
unfolding text
fake_status release_commit_hash = record {
  registered = true;
  release_hash = release_commit_hash;
  latency_seconds = 60;
  server_address = text "server1.anysphere.co:443";
}
