-- ===== src/Lib.antt =====
-- Anysphere's desktop client: a model of the TypeScript code below client/gui/src, with theorems.
--
-- The client has two processes. The renderer draws a window with tabs: lists of messages, messages
-- that are read or written, a command palette, and dialogs to add contacts. The main process holds
-- the gRPC client of the daemon, starts the daemon and shows notifications. The renderer calls the
-- main process over a bridge, one function for each method of the daemon's client.
--
-- The files, and what they model:
--   Common, Common/*           lists, strings of UTF-16 code units, integers, tests on numbers
--   Types, Types/*             client/gui/src/types.ts (protobufDateToDate, dateToProtobufDate) and the
--                              objects of client/gui/src/daemon/schema/daemon_pb.d.ts
--   Utils, Utils/*             client/gui/src/renderer/utils.ts (truncate, randomString, classNames)
--   Tabs, Tabs/*               client/gui/src/renderer/components/Tabs.tsx: use_tabs, push_tab,
--                              close_tab, next_tab, ... are useTabs, pushTab, closeTab, nextTab, ...
--   SelectableList, .../*      client/gui/src/renderer/components/SelectableList.tsx: the index moves
--   Status, Status/*           client/gui/src/renderer/components/Status.tsx, with its timers
--   Compose, Compose/*         client/gui/src/renderer/components/Compose/Write.tsx: the chooser of
--                              contacts, send, the keys; AutoLinks is Plugins/AsphrAutoLinkPlugin.tsx,
--                              Loading the two requests for contacts
--   CmdK, CmdK/*               client/gui/src/renderer/components/cmd-k: Visual (UseStore.tsx and
--                              InternalEvents.tsx), Shortcuts (InternalEvents.tsx), Results
--                              (CmdKMatches.tsx, CmdKResultHandler.tsx)
--   AddFriend, AddFriend/*     client/gui/src/renderer/components/AddFriend: stories, names, requests,
--                              the wizard for adding somebody in person; Invites the two parts of
--                              AddFriendRemotePartTwo.tsx and AddFriendIncoming.tsx
--   MessageList, .../*         client/gui/src/renderer/components/MessageList.tsx; Incoming and Outgoing
--                              the two lists as React keeps them from tab to tab, Blurbs what
--                              their rows say
--   Read, Read/*               client/gui/src/renderer/components/Read.tsx: the lines and the body
--   Dialog, Dialog/*           AddFriend.tsx there: which screen of the dialog is shown
--   Main, Main/*               client/gui/src/renderer/Main.tsx and SideBarProps.ts
--   Window, Window/*           Main.tsx again, as a whole: selected_component is the switch on the
--                              selected tab, cmd_k_actions the table of the palette, perform what
--                              an action does, on_escape the listeners of Modal.tsx, Read.tsx,
--                              Compose/Write.tsx and the palette for one key;
--                              SideBar the rows of SideBar/SideBar.tsx
--   Invitations, .../*         client/gui/src/renderer/components/Invitations.tsx, with the daemon
--   Links, Links/*             AddFriend/AddFriendRemote.tsx there, open-url and createWindow of
--                              client/gui/src/main/main.ts, client/gui/src/main/util.ts,
--                              client/gui/src/renderer/index.tsx;
--                              Checking the checks of AddFriendRemote.tsx that are not answered
--   Application, .../*         the events of Electron that client/gui/src/main/main.ts handles; Policy
--                              the headers that createWindow gives to every answer
--   Menu, Menu/*               client/gui/src/main/menu.ts: Templates the two templates, Building
--                              buildMenu
--   Delivery, Delivery/*       Compose/Write.tsx, Main.tsx, Tabs.tsx, Status.tsx and the daemon's
--                              client put together: a message from Send to the end of its promise;
--                              Editors the editor that React keeps from tab to tab
--   Requests, Requests/*       what the dialogs ask of the daemon, end to end: the screens below
--                              AddFriend there, the dialog for registering (Register is
--                              RegisterModal.tsx), preload.ts
--   Animation, Animation/*     StoryAnimation and StoryAnimationSmall of AddFriendInPerson.tsx,
--                              IDAnimation.tsx, randint of utils.ts, in AddFriend there
--   Daemon, Daemon/*           client/gui/src/main/daemon.ts, and of client/gui/src/main/main.ts the
--                              notifications and the directory of the logs
--   Startup, Startup/*         startDaemonIfNeeded of client/gui/src/main/main.ts, as a list of steps
--                              on the machine, and client/gui/src/main/constants.ts
-- Files named Tests hold concrete inputs, with a theorem applied to each.
--
-- How they correspond. A component of React becomes a record of its state and a function for each
-- callback and handler; an updater that React queues is run at once, and a callback reads the state
-- of the last rendering. An effect runs where the value it depends on has changed. A function that
-- can throw returns an option. Main uses the state of Tabs and the data of Compose; the chooser of
-- Compose and the results of the palette are rows of SelectableList, whose index they move.
-- In Daemon a call goes to a gRPC client that is a parameter: any function of the call, its request
-- and the daemon's state. Operation lists the methods of the interface Daemon, with their arguments.
--
-- Bounds and fuel. Numbers are unbounded; where the source subtracts, the test that keeps the result
-- at 0 or above is in the source, or the result is an integer (the index of SelectableList, which
-- can be -1). loop_down of SelectableList has as much fuel as there are rows, and each round moves
-- one row on, to the last row at most, where the source's loop ends too. decimal has more fuel than
-- its number has digits. All other loops are structural.
--
-- Parameters: toLowerCase, the word list and the digests of AddFriend; match-sorter; the order of
-- Object.keys; Math.random and seedrandom; path.join, path.resolve and the classes URL and
-- URLSearchParams; whether Electron can make a window, and what readdirSync reads; the editor's text
-- and what the regular expressions for links find; micromark, DOMPurify and toLocaleString of a
-- date; what the daemon answers and its stream delivers. Dates are whole milliseconds, as integers,
-- where the source computes with doubles. A draw of seedrandom is a fraction, and its product with a
-- range is exact, where the source rounds to a double.
--
-- Invitations and the daemon: Invitations.step puts the list and a daemon side by side. A request is
-- done by the daemon when it is sent, and answers come in the order of the requests. In Delivery,
-- Requests, Links.Checking, Compose.Loading and MessageList.Outgoing answers come in any order: a
-- request is done when its promise settles. In MessageList.Incoming a stream delivers until it is
-- cancelled.
--
-- Not modelled: what is drawn, Electron's windows beyond their addresses, generated code,
-- the build scripts; and the daemon and the servers, which are written in C++ and Rust and which the
-- client knows only through gRPC. The palette is adapted from the library kbar: its tree of actions,
-- its history and its subscriptions are taken as they are.
pub mod Common
pub mod Utils
pub mod Types
pub mod Tabs
pub mod SelectableList
pub mod Status
pub mod Compose
pub mod CmdK
pub mod Invitations
pub mod Main
pub mod AddFriend
pub mod Daemon
pub mod Delivery
pub mod Startup
pub mod Menu
pub mod MessageList
pub mod Dialog
pub mod Animation
pub mod Window
pub mod Links
pub mod Application
pub mod Read
pub mod Requests
