-- ===== src/Lib.antt =====
-- HomeGate: users of a home server subscribe to its services, and a subscription owns accounts at
-- the vendors of the services. This library models the part of the server (server/src) that decides
-- who has access to what, and what happens to users, services, subscriptions, accounts, invites,
-- sessions and the tasks that run in the background.
--
-- The parts. `Model` has the enumerations, rows and requests of server/src/types. A request reads
-- and changes a `World`: the rows of the tables, the calls made to the vendors (newest first), the
-- emitted events, the time, and a counter from which new rows get their ids. `Effects` has the
-- asynchronous methods as functions from a world to a result or a thrown error with the world as it
-- is then, since what was written before a throw stays written. `Database` and `Environment` have
-- what is not in the repository, as parameters: the Prisma client, one record of operations and laws
-- per table (the documented behaviour of a table with unique keys); the vendors, whose answers may
-- depend on every call made before; dates, hosts, texts, random tokens and hashes. `Database.Memory`
-- is a table in memory that meets the laws.
--
-- `Repositories` follows server/src/data/repositories, one module per repository, with unique keys
-- and cascading deletes as server/prisma/models/entities.prisma declares them. `Access` is
-- server/src/api/services/serviceAccess.service.ts, `ForwardAuth` forwardAuth.service.ts beside it,
-- `InviteService` invite.service.ts, `SubscriptionService` subscriptions.service.ts,
-- `SubscriptionLifecycle` subscriptionLifecycle.service.ts, `UserService` user.service.ts,
-- `AuthService` auth.service.ts (what happens after the OAuth provider has answered), and
-- `ServiceManagement` serviceManagement.service.ts. `IntegrationRegistry` is
-- server/src/core/integrations/accountIntegrationRegistry.ts. `Provisioners` is
-- server/src/core/subscriptions/provisioners, where the account type of a service selects the
-- operations, and `Cascade` is server/src/core/subscriptions/subscriptionCascade.service.ts, by
-- which a REFERENCED subscription follows the one that it is derived from. `InviteAccountLinking` is
-- inviteAccountLinking.service.ts, `TaskService` tasks.service.ts, `SchedulerService`
-- scheduler.service.ts and `SessionService` session.service.ts, all of server/src/api/services.
-- `SessionStore` is server/src/infrastructure/prismaSession.store.ts, with the hash of an id and the
-- text of the data as parameters, and server/src/lib/userAgent.ts. `ImageValidation` is the check of
-- a PNG in server/src/lib/imageValidation.ts. A function has the name of its method, in this
-- library's spelling; the parts of a long method have names of their own.
--
-- How they interact. A sign-up checks the invite, creates the user and its identity, claims the
-- invite and emits an event, on which accounts that exist at the vendors are linked; a new
-- REFERENCED service subscribes the users of its source by the cascade. The subscription services
-- check access, ask the provisioner of the service, write through the repositories, emit events and
-- call the cascade. Forward authentication reads policies and effective entitlements and drops
-- cached answers when an event names the user.
--
-- The bounds. Dates are milliseconds and numbers are natural; the server computes with none that
-- overflows. Every loop is over a list and needs no fuel, but for the rows that a cascading delete
-- reaches: its rounds are as many as the table has rows, and each round but the last adds a row; and
-- for the choice of a username, which follows as many draws as the environment says, where the
-- source has no bound (`still_running` is the outcome of a choice that has not ended by then). The
-- walk over the chunks of an image has a round for each byte and one more, and a chunk has twelve
-- bytes at least.
--
-- What is left out. One request runs at a time, the time stands still while it does, and the
-- database answers every query. Logging is left out; so are listings by page, the controllers and
-- their validation of requests, the protocol of OAuth, the timers that fire a job, filenames, SVG
-- and the files of images, the vendors' HTTP clients and the web client. Sessions are deleted as if
-- no line of the log named one, as the server writes none that does, but for the deletion of a user,
-- where the foreign key is modelled. The mapper of an invite leaves out the joined user names, which
-- only the listing shows.
pub mod Access
pub mod AuthService
pub mod Cascade
pub mod Common
pub mod Database
pub mod Effects
pub mod Environment
pub mod ForwardAuth
pub mod ImageValidation
pub mod IntegrationRegistry
pub mod InviteAccountLinking
pub mod InviteService
pub mod Model
pub mod Provisioners
pub mod Repositories
pub mod SchedulerService
pub mod ServiceManagement
pub mod SessionService
pub mod SessionStore
pub mod SubscriptionLifecycle
pub mod SubscriptionService
pub mod TaskService
pub mod Tests
pub mod UserService
