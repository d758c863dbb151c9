-- ===== src/Lib.antt =====
-- Verification of agyary, a calendar and booking tool for the priests of Zoroastrian fire temples.
--
-- The calendar package (src/agyary/calendar/) is pure: `engine.py` converts between the Gregorian
-- calendar and the three Parsi calendars, and `memorial.py` works out the observances of a death
-- over it. The services (src/agyary/services/) keep the rest in a database: `phone.py` gives a
-- number its one stored shape, `reminder_sender.py` sends the reminders that were planned for the
-- evening before an observance and takes Meta's receipts, and `guardrails.py` has the caps, the
-- pause switch and the alerts that it obeys and sets. A mobed's machis are booked by geh and day
-- (src/agyary/messaging/); a mobed signs in by a code that is sent or by a message that he sends,
-- and `mobed_auth.py` keeps his devices' sessions. `memorials.py` saves the observances that a family
-- chose, and `mobed_dashboard.py` keeps the machis that repeat.
--
-- Files and code:
--   Common, with Common/...: Booleans, results, integers, texts and lists that the parts share. A
--     `raise ValueError` is `value_error`, and Python's OverflowError on dates is `overflow_error`,
--     of `Result`. A Python int that may be negative is a ℤ; `//` and `%` on it are `floor_div` and
--     `floor_mod`.
--   Dates, with Dates/...: `datetime.date` of Python's library, years 1 to 9999, by ordinals. An
--     ordinal that is out of range is a `value_error`, also past a C int, where CPython's own is an
--     OverflowError.
--   Engine, with Engine/...: calendar/engine.py. Days, Fasli, RoundTrip, Order and Soonest hold
--     proofs; Occurrence models `nearest_occurrence`. The calendars are one enumeration and not
--     strings, so the ValueError for an unknown calendar has no counterpart.
--   Memorial, with Memorial/...: calendar/memorial.py. The module itself has the count by Roj and
--     Mah, Series the Parabs, the monthly Roj Fravardin and the birthdays, Schedule the keys of
--     `build_schedule` and its nested functions, Keep its last lines, Build the whole function.
--     Counting, Kept and Sorted hold proofs. Codes and labels are data and not formatted text; a
--     dict is an association list in order of insertion. `first_valid` stops after 100000 rounds as
--     the code does, which is its fuel.
--   Phone, with Phone/...: services/phone.py, on texts as lists of code points. The test for a
--     decimal digit is a parameter, since the pattern's `\d` is that of the pattern library.
--   Guardrails, with Guardrails/...: services/guardrails.py, the caps of `Usage`, and
--     `alert_admins`. A dict of counts is an association list; times are in seconds.
--   Planning, with Planning/...: `plan_tomorrow` of services/reminder_sender.py and `usage` of
--     services/guardrails.py, on the joined rows that its query could answer. The rules for texts,
--     the caps of new accounts, the allowlist, and whether a time is in the day or month that is
--     counted are parameters; the message's wording and the alert at the end are left out.
--   Sending, with Sending/...: services/reminder_sender.py. The module itself has the rows, the
--     families' records, `_post` as a function of the HTTP library's reply, and `_withdrawn`; Loop
--     has `send_pending`, Receipts `apply_status`. Once, Consent, Ends and Furthest hold proofs.
--     The tables are a state that is passed on; the replies, the records as each round reads them
--     (a STOP may come between two rounds), and the date and hour in India of a time are
--     parameters. The loop runs on fuel, one more than the rows that are pending, which Ends shows
--     to be enough. The history of what was posted, with the reply that each post got, is part of
--     the state and read by nothing. A 200 whose JSON is not of Meta's shape, which can end in a
--     TypeError, is not modelled, nor are two senders at once, which row locks keep apart; error
--     messages are a data type and not text.
--   Stops, with Stops/...: `record_stop` of services/reminders.py, over the records of Sending;
--     Switch has `set_reminders` and `goes_automatically`; Stopped, Lasts and Unplanned hold
--     proofs, the last over the planner of Planning.
--   RateLimit, with RateLimit/...: `enforce_key` of api/rate_limit.py (src/agyary/api/), with its
--     store passed on and times in whole units; a response of status 429 is `none`.
--   Machis, with Machis/...: messaging/geh_times.py, messaging/availability.py and the machi
--     slots of messaging/booking_service.py (src/agyary/messaging/), over a table of machis with
--     the unique index of models/machi.py. Others may book between the check and the insert: the
--     check reads one state of the tables and the insert finds another. Single, Outcome, Keys,
--     Rebook and Scan hold proofs. The calendar of a fire temple and the time are parameters; times
--     in India are a date and the seconds of the day. The scan has ninety days, as in the code.
--   SignIn, with SignIn/...: services/otp.py and services/wa_login.py, with the parts of
--     api/routes/otp.py, api/routes/whatsapp.py and api/routes/mobed.py that call them. The module
--     itself has `verify_code`, Request has `request_code`, Attempts the sign-in by a message,
--     Verify the route that takes a typed code, which joins the two. Lock is the abstract secret
--     that may be guessed at; Newest, Guesses, Limits, Grounds, Writes and Released hold proofs,
--     the last over a step relation with a log of what came from outside. Digests, secrets that are
--     drawn, the account query and the rule of SIGNUP_MODE are parameters. What a request writes is
--     kept only where it is committed, as in the route.
--   Sessions, with Sessions/...: the sessions and refresh tokens of services/mobed_auth.py.
--     Tokens are their decoded claims.
--   TemplateText, with TemplateText/...: services/template_text.py, on texts as lists of code
--     points. The patterns are written out as searches; what a word character, a decimal digit and
--     the small letter of a letter are is a parameter. Tidy and Passed hold proofs.
--   Memorials, with Memorials/...: services/memorials.py. The module itself has the choice and
--     the ways that a call ends (MemorialError is `refused`, an error that nothing catches is
--     `crashed`); Death has `resolve_death` and `resolve_birthday`, Plan has `plan`, Saving the
--     rows that are saved, Creating `create_memorial`, and Reading the marks, the edits, the
--     progress and the calendar's feed. Latest, Planned, Prayers, Saved, Rows, Closing and Marks
--     hold proofs. The lower case of a text, today and the time are parameters, and a time read
--     twice in one call is the same; what is answered leaves names for people out.
--   Repeats, with Repeats/...: the repeating machis of services/mobed_dashboard.py, over the
--     board of Machis; Generate has the generator and its callers; Kept, Tries, Due, Places and
--     Ends hold proofs. The generator has 36 rounds, as in the code. What others book between the
--     check and the insert of a round is a parameter, as are the calendar of a fire temple, the
--     time, and which families there are.
--   Tests, with Tests/...: runs, and an instance of each theorem.
--
-- Not modelled: bookings of other services and their repeats, and the directory of families, which
-- are left for later; the rest of the dashboard's queries and of the routes, the sharing of a
-- memorial, the database tables and migrations, the wording of messages, and the web client, which
-- are queries, requests and texts.
pub mod Common
pub mod Dates
pub mod Engine
pub mod Guardrails
pub mod Machis
pub mod Memorial
pub mod Memorials
pub mod Phone
pub mod Planning
pub mod RateLimit
pub mod Repeats
pub mod Sending
pub mod Sessions
pub mod SignIn
pub mod Stops
pub mod TemplateText
pub mod Tests
