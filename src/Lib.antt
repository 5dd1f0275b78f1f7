-- ===== src/Lib.antt =====
-- Rentivo, a manager of rental bills: landlords keep billings, templates of what a tenant pays,
-- and make a bill of each month from them, with a PDF, a status and receipts. Billings belong to a
-- user or to an organization, whose members have roles; users join by invites.
--
-- The files, and the code that they are about:
-- - Prelude: names of the libraries, Boolean tests, lists, and integers for amounts in centavos.
-- - Errors, Db: the errors that the code raises, and a call as a function from a database to a
--   result and a database. What a call committed before it raised stays committed. Db is a record
--   of tables, with the files of the storage backend by their keys.
-- - Sql: the statements of rentivo/repositories/sqlalchemy.py over a table as a list of rows:
--   INSERT with AUTO_INCREMENT, SELECT, UPDATE, DELETE and ORDER BY, with the laws between them.
-- - Models: rentivo/models.
-- - Billing, Bill, User, Organization, Invite, Receipt: the repository of that name in
--   rentivo/repositories/sqlalchemy.py, together with rentivo/services/billing_service.py,
--   user_service.py, organization_service.py and invite_service.py. A method keeps its name;
--   helpers named new_, insert_ and write_ are the statements of one method.
-- - Bill/Service: rentivo/services/bill_service.py. Its children are about the totals of the
--   stored bills (Totals, Kept), the lines of a new bill (Generate), what is stored without and
--   with a PDF (Stored, Rendered), what is refused (Guards), and what a PDF is rendered from
--   (Pdf).
-- - Authorization: rentivo/services/authorization_service.py.
-- - Mfa: rentivo/services/mfa_service.py (Mfa/Service) and the repositories of second factors,
--   recovery codes and passkeys. Mfa/Service/Codes is about the use of a recovery code, Setup and
--   Life about a second factor from its set-up until it is disabled, Owners about whose passkeys a
--   user may delete.
-- - Pix: rentivo/pix.py without the drawing of the PNG. An amount is divided into a float of 53
--   bits, written out on natural numbers (float_centavos): its exponent is found by at most 60
--   doublings, enough for any amount of a centavo or more, or 1024 halvings, enough for any that
--   has a float. Pix/Fields holds a reader of the fields, of which a payload has at most ten, and
--   Pix/Float is about the amounts that lose no centavo.
-- - Money: parse_brl of rentivo/models/__init__.py, with which the forms read amounts.
-- - Json, Audit: the JSON values of the audit log, its repository and
--   rentivo/services/audit_service.py; Audit/Serializers: rentivo/services/audit_serializers.py.
-- - Theme: the repository of themes and rentivo/services/theme_service.py. Theme/Owner is about
--   what is then the theme of an owner.
-- - Web: what the handlers of web/ share, with web/flash.py: a handler is a function from the
--   session of a client, the database and the attempts kept in memory. Web/Limiter: the limiters
--   of web/auth.py, Refinement against the whole history, Bounds on what they keep. Web/Auth: the
--   handlers of web/auth.py; Handled and PasskeyHandled say what they leave in a session, Requests
--   are runs of them, Sessions is about who is signed in, Attempts about the limiters.
-- - Web/Organizations, Web/Bills, Web/Receipts, Web/Invites, Web/Billings, Web/Themes: the
--   handlers of forms of web/routes/organization.py, bill.py, invite.py, billing.py and theme.py.
--   Web/Security, Web/Passkeys: the handlers of web/routes/security.py. Web/Organizations/Guards
--   is about who may send them, Members about a removal. Web/Keeps has the rules by which a
--   handler keeps a property of the database, and Web/Bills/Kept applies them to the totals of
--   bills, Web/Themes/Styled, Stored and Forms to the fonts and colours of themes.
-- - Web/Middleware: web/csrf.py and the guards of web/deps.py; Web/Middleware/Guarded is about
--   which requests they let through.
-- - Tests: the properties on a small database.
--
-- Times, uuids and salts that the code draws are arguments. A time is a number. That uuids are
-- UNIQUE is modelled for the audit log, whose INSERT raises where the uuid is taken; elsewhere
-- uuids are taken as drawn. The keys UNIQUE (username), UNIQUE (organization_id, user_id), UNIQUE
-- (user_id) of second factors, UNIQUE (owner_type, owner_id) of themes and the FOREIGN KEYs are
-- guards of the INSERTs, which raise an integrity error and commit nothing. Rows that an ORDER BY
-- does not tell apart keep the order of insertion, and texts are in the order of their code
-- points. Texts of item types are the values of their enumeration. An error carries its text, for
-- a RuntimeError without the id at its end. Functions are structural recursions; only the exponent
-- of a float and the decimal digits of a number are found on fuel, for which n + 1 is enough
-- (decimal in Pix, shown in Pix/Digits, and text_of in Web).
--
-- Parameters: bcrypt (User.Bcrypt, with the law that a password passes the check against its own
-- hash), pyotp and qrcode (Mfa.Service.Pyotp, where a code is checked at a time), the removal of
-- accents, webauthn (Web.Passkeys.Webauthn, its challenges as texts), the reading of a number of
-- centavos from a decimal text (to_centavos, which is int(round(float(text) * 100)) and may
-- raise), and for the bill service (Bill.Service.Config) the rendering of a PDF, the merging of
-- receipts and the path that the storage gives.
--
-- The texts of forms reach the handlers stripped where the code strips them, with the rows that
-- parse_formset gives; a handler of a request that raises leaves the session as it was when it
-- raised. The clocks of the limiter and the database are different arguments.
--
-- Not modelled: the command line, the pages that web/ only shows, the texts of amounts that are
-- shown, PDF rendering, storage backends, logging and start-up.
pub mod Prelude
pub mod Sql
pub mod Errors
pub mod Json
pub mod Money
pub mod Models
pub mod Db
pub mod Organization
pub mod User
pub mod Billing
pub mod Bill
pub mod Receipt
pub mod Authorization
pub mod Invite
pub mod Mfa
pub mod Pix
pub mod Audit
pub mod Theme
pub mod Web
pub mod Tests
